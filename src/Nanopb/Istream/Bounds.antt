-- ===== src/Nanopb/Istream/Bounds.antt =====
-- Reads stay inside the buffer: the position and `bytes_left` move together.
use league_ranker.Prelude.{
  ℕ, ◌+◌, ◌^◌, ◌≤◌, ◌<◌, ◌≡◌, Option, none, some, length, arith, length-drop,
}
use league_ranker.Nanopb.Types.{Errmsg}
use league_ranker.Nanopb.Istream.{
  Istream, Decoder, buf_read, ◌>>=◌, pure, return_error, out_of_fuel, read_into, skip, readbyte,
}

-- A stream over a buffer that holds all that `bytes_left` still lets it read.
pub record IsInput (s : Istream) : Type 0 where
  pub source : s.callback ≡ buf_read
  pub held : s.bytes_left ≤ length s.state
  pub small : s.bytes_left < 2 ^ 64

-- As many bytes were passed over as `bytes_left` went down by.
pub record Moved (s t : Istream) : Type 0 where
  pub source : t.callback ≡ s.callback
  pub fewer : t.bytes_left ≤ s.bytes_left
  pub passed : length t.state + s.bytes_left ≡ length s.state + t.bytes_left

pub Moved-IsInput : {s t : Istream} → Moved s t → IsInput s → IsInput t
Moved-IsInput m v = ground arith

pub Moved-refl : (s : Istream) → Moved s s
Moved-refl s = ground arith

pub Moved-trans : {s t u : Istream} → Moved s t → Moved t u → Moved s u
Moved-trans m n = ground arith

-- Whatever the input, the decoder stays in bounds.
pub record InBounds {A : Type 0} (d : Decoder A) : Type 0 where
  pub moves : (s : Istream) → IsInput s → Moved s (d s).1

pub pure-InBounds : {A : Type 0} (a : A) → InBounds (pure a)
pure-InBounds a = record { moves = λ s v. Moved-refl s }

pub return_error-InBounds : {A : Type 0} (e : Errmsg) → InBounds {A = A} (return_error e)
return_error-InBounds e = record { moves = λ s v. ground arith }

pub out_of_fuel-InBounds : {A : Type 0} → InBounds {A = A} out_of_fuel
out_of_fuel-InBounds = record { moves = λ s v. Moved-refl s }

read_into_moves : (count : ℕ) (s : Istream) → IsInput s → Moved s (read_into count s).1
unfolding read_into
read_into_moves count s v = ground (arith, length-drop count s.state)

pub read_into-InBounds : (count : ℕ) → InBounds (read_into count)
read_into-InBounds count = record { moves = read_into_moves count }

skip_moves : (count : ℕ) (s : Istream) → IsInput s → Moved s (skip count s).1
unfolding skip
skip_moves count s v = ground (arith, read_into_moves count s v)

pub skip-InBounds : (count : ℕ) → InBounds (skip count)
skip-InBounds count = record { moves = skip_moves count }

readbyte_moves : (s : Istream) → IsInput s → Moved s (readbyte s).1
unfolding readbyte
readbyte_moves s v = ground (arith, length-drop 1 s.state)

pub readbyte-InBounds : InBounds readbyte
readbyte-InBounds = record { moves = readbyte_moves }

bind_moves :
    {A B : Type 0} (m : Decoder A) (k : A → Decoder B)
    → InBounds m
    → ((a : A) → InBounds (k a))
    → (s : Istream) → IsInput s
    → Moved s ((m >>= k) s).1
bind_moves {A} {B} m k hm hk s v = go (m s) (hm.moves s v)
  where
    go : (r : Option A × Istream) → Moved s r.1 → Moved s (◌>>=◌ {A = A} {B = B} (λ x. r) k s).1
    go (none, t) h = h
    go (some a, t) h = Moved-trans h ((hk a).moves t (Moved-IsInput h v))

pub >>=-InBounds :
    {A B : Type 0} (m : Decoder A) (k : A → Decoder B)
    → InBounds m
    → ((a : A) → InBounds (k a))
    → InBounds (m >>= k)
>>=-InBounds m k hm hk = record { moves = bind_moves m k hm hk }
