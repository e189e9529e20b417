-- ===== src/Nanopb/World/Bounds.antt =====
-- Reads of functions on a stream and the world stay inside the input buffer.
use league_ranker.Prelude.{
  ℕ, ◌+◌, ◌≤◌, ◌≡◌, refl, Bool, true, false, Option, none, some, length, arith, length-drop,
  if◌then◌else◌,
}
use league_ranker.Nanopb.Types.{Errmsg}
use league_ranker.Nanopb.Istream.{Istream, Decoder, buf_read, skip}
use league_ranker.Nanopb.Istream as Istream
use league_ranker.Nanopb.Istream.Bounds.{IsInput, Moved, Moved-IsInput, InBounds, skip-InBounds}
use league_ranker.Nanopb.Substream.{cut_substream, make_string_substream, close_string_substream}
use league_ranker.Nanopb.Decode.{decode_varint32}
use league_ranker.Nanopb.Decode.Bounds.{decode_varint32-InBounds}
use league_ranker.Nanopb.World.{
  World, Libc, Run, ◌>>=◌, pure, fail, return_error, lift, look, change, left, read_to,
  allocate_field,
}

-- The position went on by no more than `bytes_left` went down.
pub record Within (s t : Istream) : Type 0 where
  pub source : t.callback ≡ s.callback
  pub fewer : t.bytes_left ≤ s.bytes_left
  pub passed : length s.state + t.bytes_left ≤ length t.state + s.bytes_left

pub Within-refl : (s : Istream) → Within s s
Within-refl s = ground arith

pub Within-trans : {s t u : Istream} → Within s t → Within t u → Within s u
Within-trans m n = ground arith

pub Within-IsInput : {s t : Istream} → Within s t → IsInput s → IsInput t
Within-IsInput m v = ground arith

pub Moved-Within : {s t : Istream} → Moved s t → Within s t
Moved-Within m = ground arith

-- Whatever the input and the world, `m` stays in bounds.
pub record Reads {A : Type 0} (m : Run A) : Type 0 where
  pub moves : (s : Istream) (w : World) → IsInput s → Within s (m s w).1

pub pure-Reads : {A : Type 0} (a : A) → Reads (pure a)
unfolding pure
pure-Reads a = record { moves = λ s w v. Within-refl s }

pub fail-Reads : {A : Type 0} → Reads {A = A} fail
unfolding fail
fail-Reads = record { moves = λ s w v. Within-refl s }

pub return_error-Reads : {A : Type 0} (e : Errmsg) → Reads {A = A} (return_error e)
unfolding return_error
return_error-Reads e = record { moves = λ s w v. ground arith }

pub look-Reads : {A : Type 0} (f : World → A) → Reads (look f)
unfolding look
look-Reads f = record { moves = λ s w v. Within-refl s }

pub change-Reads : (f : World → World) → Reads (change f)
unfolding change
change-Reads f = record { moves = λ s w v. Within-refl s }

pub left-Reads : Reads left
unfolding left
left-Reads = record { moves = λ s w v. Within-refl s }

pub lift-Reads : {A : Type 0} (m : Decoder A) → InBounds m → Reads (lift m)
unfolding lift
lift-Reads m h = record { moves = λ s w v. Moved-Within (h.moves s v) }

-- What comes behind a function that has ended with `r`.
pub behind_result :
    {A B : Type 0} (r : Option A × Istream × World) (k : A → Run B) (s t : Istream) (w : World)
    → (r.0 ≡ none → Within t r.1)
    → ((a : A) → r.0 ≡ some a → Within t (k a r.1 r.2).1)
    → Within t (◌>>=◌ {A = A} {B = B} (λ x y. r) k s w).1
unfolding ◌>>=◌
behind_result (none, s', w') k s t w h hk = h refl
behind_result (some a, s', w') k s t w h hk = hk a refl

pub >>=-Reads :
    {A B : Type 0} (m : Run A) (k : A → Run B) → Reads m → ((a : A) → Reads (k a)) → Reads (m >>= k)
unfolding ◌>>=◌
>>=-Reads m k hm hk = record {
  moves = λ s w v.
      let h = hm.moves s w v in
      behind_result (m s w) k s s w (λ _. h)
        (λ a _. Within-trans h ((hk a).moves (m s w).1 (m s w).2 (Within-IsInput h v)));
}

pub if-Reads :
    {A : Type 0} (b : Bool) {m n : Run A} → Reads m → Reads n → Reads (if b then m else n)
if-Reads true h k = h
if-Reads false h k = k

pub Option-Reads :
    {A B : Type 0} (o : Option B) {m : Run A} {k : B → Run A}
    → Reads m
    → ((b : B) → Reads (k b))
    → Reads (elim o [ none ↦ m | some b ↦ k b ])
Option-Reads none h k = h
Option-Reads (some b) h k = k b

pub read_to-Reads : (dest count : ℕ) → Reads (read_to dest count)
unfolding read_to return_error
read_to-Reads dest count = record {
  moves = λ s w v. ground (arith, length-drop count s.state, v.source, v.held, v.small);
}

pub allocate_field-Reads :
    (libc : Libc) (p_data data_size array_size : ℕ)
    → Reads (allocate_field libc p_data data_size array_size)
unfolding allocate_field return_error
allocate_field-Reads libc p_data data_size array_size = record { moves = λ s w v. ground arith }

-- The stream before a substream was made, and the parent and the substream then.
pub record Split (whole s sub : Istream) : Type 0 where
  pub parent : s.callback ≡ whole.callback
  pub child : sub.callback ≡ whole.callback
  pub parent_state : s.state ≡ whole.state
  pub child_state : sub.state ≡ whole.state
  pub shares : s.bytes_left + sub.bytes_left ≡ whole.bytes_left
  pub input : IsInput whole

pub Split-IsInput : {whole s sub : Istream} → Split whole s sub → IsInput sub
Split-IsInput v = ground (arith, v.input.source, v.input.held, v.input.small)

pub Split-Within : {whole s sub : Istream} → Split whole s sub → Within whole s
Split-Within v = ground arith

-- The parent goes on where the substream ended.
pub close-Within :
    {whole s sub t : Istream}
    → Split whole s sub
    → Within sub t
    → Within whole (close_string_substream t s).1
unfolding close_string_substream
close-Within {whole} {s} {sub} {t} v h =
    let skips = (skip-InBounds t.bytes_left).moves t (Within-IsInput h (Split-IsInput v)) in
    ground (
      arith, skips.source, skips.fewer, skips.passed, v.parent, v.child, v.parent_state,
      v.child_state, v.shares, h.source, h.fewer, h.passed, v.input.source,
    )

module _ {A : Type 0} (k : Istream → Run A)
    (h : (whole s sub : Istream) (w : World) → Split whole s sub → Within whole (k sub s w).1) where
  cut_Split :
      (size : ℕ) (s sub : Istream)
      → IsInput s
      → (cut_substream size s).0 ≡ some sub
      → Split s (cut_substream size s).1 sub
  unfolding cut_substream
  cut_Split size s sub v e = ground (arith, v.source, v.held, v.small)

  cut_failed :
      (size : ℕ) (s : Istream) → (cut_substream size s).0 ≡ none → Within s (cut_substream size s).1
  unfolding cut_substream
  cut_failed size s e = ground arith

  cut-Reads :
      (size : ℕ) (s : Istream) (w : World)
      → IsInput s
      → Within s ((lift (cut_substream size) >>= k) s w).1
  unfolding lift ◌>>=◌
  cut-Reads size s w v =
      behind_result (lift (cut_substream size) s w) k s s w (cut_failed size s)
        (λ sub e. h s (cut_substream size s).1 sub w (cut_Split size s sub v e))

  behind_size :
      (s : Istream) (w : World) (r : Option ℕ × Istream)
      → IsInput s
      → Moved s r.1
      → Within s (◌>>=◌ (lift (Istream.◌>>=◌ (λ x. r) cut_substream)) k s w).1
  unfolding lift ◌>>=◌
  behind_size s w (none, t) v m = Moved-Within m
  behind_size s w (some size, t) v m =
      Within-trans (Moved-Within m) (cut-Reads size t w (Moved-IsInput m v))

  pub substream-Reads : Reads (lift make_string_substream >>= k)
  unfolding make_string_substream lift ◌>>=◌
  substream-Reads = record {
    moves = λ s w v. behind_size s w (decode_varint32 s) v (decode_varint32-InBounds.moves s v);
  }
