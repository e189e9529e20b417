-- ===== src/Nanopb/Message/Outcome.antt =====
-- What an encoder comes to, on a stream that counts and on one over a buffer: the bytes that it
-- writes, and whether it goes through to its end. The rules for the encoders that others are put
-- together from.
use league_ranker.Prelude.Memory.{write_at}
use league_ranker.Nanopb.Message.Values.{done, stuck}
use mathlib.Core.Path.{subst, fun_ext}
use league_ranker.Nanopb.Encode.{encode_varint, tag_word, encode_tag, encode_string}
use league_ranker.Nanopb.Encode.Varint.{varint, varint_buffer-varint}
use league_ranker.Prelude.Bits.{bit_or_comm, bit_or-shifted}
use native.Mathlib.Decide.{dec_le}
use league_ranker.Prelude.{
  ℕ, ◌+◌, ◌*◌, ◌%◌, ◌^◌, ◌≤◌, ◌<◌, ◌≡◌, refl, ap, sym, ◌∙◌, Bool, true, false, none, List, [], ◌++◌,
  length, arith, length-append, if◌then◌else◌,
}
use league_ranker.Nanopb.Types.{Errmsg, add_size, IsU64}
use league_ranker.Nanopb.Ostream.{Ostream, Encoder, ◌>>◌, write, return_error}
use league_ranker.Nanopb.Ostream.Buffer.{
  IsBuffer, emit, put, write-put, emit-IsBuffer, put-IsBuffer, emit-emit, bytes_written-emit,
  max_size-emit,
}

-- The bytes written, up to the failure if there is one, and whether there is none.
abbrev pub Outcome : Type 0
Outcome = List ℕ × Bool

abbrev pub written : List ℕ → Outcome
written bs = (bs, true)

abbrev pub failed : Outcome
failed = ([], false)

infixl 5 ◌then◌
abbrev pub ◌then◌ : Outcome → Outcome → Outcome
(xs, true) then (ys, b) = (xs ++ ys, b)
(xs, false) then q = (xs, false)

-- The stream of a sizing pass with `n` bytes more; the count wraps.
unfoldable pub added : ℕ → Ostream → Ostream
added n s = record s { bytes_written = add_size s.bytes_written n }

-- A result: success with the stream `t`, or failure within the buffer.
abbrev pub Ends : Bool → Bool × Ostream → Ostream → Type 0
Ends true r t = r ≡ (true, t)
Ends false r t = (r.0 ≡ false) × IsBuffer r.1

abbrev pub Sizes : Bool → Bool × Ostream → Ostream → Type 0
Sizes true r t = r ≡ (true, t)
Sizes false r t = r.0 ≡ false

-- A stream that only counts, and one over a buffer, with no error message yet.
pub record IsCounter (s : Ostream) : Type 0 where
  pub no_callback : s.callback ≡ none
  pub wide : s.bytes_written < 2 ^ 64
  pub clean : s.errmsg ≡ none

pub record IsClean (s : Ostream) : Type 0 where
  pub buffer : IsBuffer s
  pub clean : s.errmsg ≡ none

-- On a sizing stream `e` counts the bytes of the outcome, and on a buffer it stores them if they
-- fit. If they do not fit, or the outcome is a failure, it fails, and has not left the buffer.
pub record Encodes (e : Encoder) (o : Outcome) : Type 0 where
  pub counts : (s : Ostream) → IsCounter s → Sizes o.1 (e s) (added (length o.0) s)
  pub stored :
      length o.0 < 2 ^ 63
      → (s : Ostream) → IsClean s
      → s.bytes_written + length o.0 ≤ s.max_size
      → Ends o.1 (e s) (emit o.0 s)
  pub refused :
      length o.0 < 2 ^ 63
      → (s : Ostream) → IsClean s
      → s.max_size < s.bytes_written + length o.0
      → ((e s).0 ≡ false) × IsBuffer (e s).1

emit_nothing : (s : Ostream) → emit [] s ≡ s
unfolding emit write_at
emit_nothing s = ground arith

added_nothing : (s : Ostream) → s.bytes_written < 2 ^ 64 → added 0 s ≡ s
unfolding added
added_nothing s h = ground arith

added-added : (m n : ℕ) (s : Ostream) → added n (added m s) ≡ added (m + n) s
unfolding added
added-added m n s = ground arith

pub added-IsCounter : (n : ℕ) {s : Ostream} → IsCounter s → IsCounter (added n s)
unfolding added
added-IsCounter n v = ground arith

pub emit-IsClean :
    (bs : List ℕ) {s : Ostream}
    → IsClean s
    → s.bytes_written + length bs ≤ s.max_size
    → IsClean (emit bs s)
emit-IsClean bs {s} v h = record {
  buffer = emit-IsBuffer bs v.buffer h;
  clean = unfold emit in v.clean;
}

pub return_error-IsBuffer : (m : Errmsg) {s : Ostream} → IsBuffer s → IsBuffer (return_error m s).1
return_error-IsBuffer m v = ground arith

pub done-Encodes : Encodes done (written [])
done-Encodes = record {
  counts = λ s v. ap (λ t. (true, t)) (sym (added_nothing s v.wide));
  stored = λ _ s v h. ap (λ t. (true, t)) (sym (emit_nothing s));
  refused = λ _ s v h. absurd (omega (arith, v.buffer.fits));
}

pub stuck-Encodes : Encodes stuck failed
stuck-Encodes = record {
  counts = λ s v. refl;
  stored = λ _ s v h. (refl, v.buffer);
  refused = λ _ s v h. (refl, v.buffer);
}

pub error-Encodes : (m : Errmsg) → Encodes (return_error m) failed
error-Encodes m = record {
  counts = λ s v. refl;
  stored = λ _ s v h. (refl, return_error-IsBuffer m v.buffer);
  refused = λ _ s v h. (refl, return_error-IsBuffer m v.buffer);
}

pub write-Encodes : (bs : List ℕ) → Encodes (λ s. write s bs (length bs)) (written bs)
write-Encodes bs = record {
  counts = λ s v. unfold write added in ground (arith, v.no_callback);
  stored = λ h s v fits. write-put bs v.buffer h ∙ unfold put in ground arith;
  refused = λ h s v over.
      rw (write-put bs v.buffer h) (unfold put in ground arith, put-IsBuffer bs v.buffer);
}

pub if-Encodes :
    (b : Bool) {e e' : Encoder} {o o' : Outcome}
    → Encodes e o
    → Encodes e' o'
    → Encodes (if b then e else e') (if b then o else o')
if-Encodes true h h' = h
if-Encodes false h h' = h'

module _ (m k : Encoder) (xs : List ℕ) where
  then_failed : Encodes m (xs, false) → Encodes (m >> k) (xs, false)
  then_failed hm = record {
    counts = λ s v. rw (hm.counts s v) refl;
    stored = λ h s v fits. let (e, b) = hm.stored h s v fits in rw e (refl, b);
    refused = λ h s v over. let (e, b) = hm.refused h s v over in rw e (refl, b);
  }

  module _ (ys : List ℕ) (b : Bool) (hm : Encodes m (written xs)) (hk : Encodes k (ys, b)) where
    then_counts : (s : Ostream) → IsCounter s → Sizes b ((m >> k) s) (added (length (xs ++ ys)) s)
    then_counts s v = rw (hm.counts s v) (
        subst (λ t. Sizes b (k (added (length xs) s)) t)
          (added-added (length xs) (length ys) s ∙ ap (λ n. added n s) (sym (length-append xs ys)))
          (hk.counts (added (length xs) s) (added-IsCounter (length xs) v)))

    then_stored :
        length (xs ++ ys) < 2 ^ 63
        → (s : Ostream) → IsClean s
        → s.bytes_written + length (xs ++ ys) ≤ s.max_size
        → Ends b ((m >> k) s) (emit (xs ++ ys) s)
    then_stored h s v fits =
        let sum = length-append xs ys in
        rw (hm.stored (omega arith) s v (omega arith)) (
          subst (λ t. Ends b (k (emit xs s)) t) (emit-emit xs ys s)
            (hk.stored (omega arith) (emit xs s) (emit-IsClean xs v (omega arith))
              (omega (arith, bytes_written-emit xs s, max_size-emit xs s))))

    then_refused :
        length (xs ++ ys) < 2 ^ 63
        → (s : Ostream) → IsClean s
        → s.max_size < s.bytes_written + length (xs ++ ys)
        → (((m >> k) s).0 ≡ false) × IsBuffer ((m >> k) s).1
    then_refused h s v over =
        let sum = length-append xs ys in
        elim (dec_le (s.bytes_written + length xs) s.max_size) [
          | yes fits ↦ rw (hm.stored (omega arith) s v fits) (
              hk.refused (omega arith) (emit xs s) (emit-IsClean xs v fits)
                (omega (arith, bytes_written-emit xs s, max_size-emit xs s)))
          | no short ↦
              let (stopped, valid) = hm.refused (omega arith) s v (omega arith) in
              rw stopped (refl, valid)
        ]

pub then-Encodes :
    (m k : Encoder) (o p : Outcome) → Encodes m o → Encodes k p → Encodes (m >> k) (o then p)
then-Encodes m k (xs, true) (ys, b) hm hk = record {
  counts = then_counts m k xs ys b hm hk;
  stored = then_stored m k xs ys b hm hk;
  refused = then_refused m k xs ys b hm hk;
}
then-Encodes m k (xs, false) p hm hk = then_failed m k xs hm

-- An encoder that does what another does.
pub same-Encodes :
    {e f : Encoder} {o : Outcome} → ((s : Ostream) → f s ≡ e s) → Encodes e o → Encodes f o
same-Encodes {e} {f} {o} h w = subst (λ g. Encodes g o) (fun_ext (λ s. sym (h s))) w

pub varint-Encodes : (v : ℕ) → IsU64 v → Encodes (encode_varint v) (written (varint 9 v))
unfolding encode_varint
varint-Encodes v h =
    subst (λ bs. Encodes (λ s. write s bs (length bs)) (written (varint 9 v)))
      (sym (varint_buffer-varint v h)) (write-Encodes (varint 9 v))

pub tag_word-IsU64 :
    (wiretype field_number : ℕ) → wiretype < 8 → IsU64 (tag_word wiretype field_number)
unfolding tag_word
tag_word-IsU64 w n h =
    ground (arith, bit_or_comm (n * 8 % 2 ^ 64) w, bit_or-shifted 3 w (n % 2 ^ 61))

tag_word-sum :
    (wiretype field_number : ℕ)
    → wiretype < 8
    → tag_word wiretype field_number ≡ 8 * (field_number % 2 ^ 61) + wiretype
unfolding tag_word
tag_word-sum w n h = ground (arith, bit_or_comm (n * 8 % 2 ^ 64) w, bit_or-shifted 3 w (n % 2 ^ 61))

-- The tag of a field, its number with the wire type in three bits, and a length-delimited payload.
abbrev pub tag_bytes : ℕ → ℕ → List ℕ
tag_bytes wiretype field_number = varint 9 (8 * (field_number % 2 ^ 61) + wiretype)

abbrev pub delimited : List ℕ → List ℕ
delimited bs = varint 9 (length bs % 2 ^ 64) ++ bs

pub tag-Encodes : (w n : ℕ) → w < 8 → Encodes (encode_tag w n) (written (tag_bytes w n))
unfolding encode_tag
tag-Encodes w n h = rw (← tag_word-sum w n h) (varint-Encodes (tag_word w n) (tag_word-IsU64 w n h))

string_of-Encodes :
    (bs : List ℕ)
    → length bs < 2 ^ 64
    → Encodes (encode_string bs (length bs)) (written (delimited bs))
unfolding encode_string
string_of-Encodes bs h =
    subst (λ n. Encodes (encode_string bs (length bs)) (written (varint 9 n ++ bs))) (omega arith)
      (then-Encodes (encode_varint (length bs)) (λ s. write s bs (length bs)) _ (written bs)
        (varint-Encodes (length bs) h) (write-Encodes bs))

pub string-Encodes :
    (bs : List ℕ) (size : ℕ)
    → length bs ≡ size
    → size < 2 ^ 64
    → Encodes (encode_string bs size) (written (delimited bs))
string-Encodes bs size e h =
    subst (λ n. Encodes (encode_string bs n) (written (delimited bs))) e
      (string_of-Encodes bs (omega arith))
