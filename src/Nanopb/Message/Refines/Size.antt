-- ===== src/Nanopb/Message/Refines/Size.antt =====
-- `pb_get_encoded_size`, `pb_encode_delimited` and `pb_encode_nullterminated`.
use league_ranker.Prelude.{
  ℕ, ◌+◌, ◌^◌, ◌≤◌, ◌<◌, ◌≡◌, refl, ◌∙◌, Bool, true, false, Option, none, some, List, [], ◌∷◌,
  length, arith, leb, if◌then◌else◌,
}
use native.Mathlib.Decide.{dec_le}
use league_ranker.Nanopb.Ostream.{Ostream, Encoder, write, ostream_from_buffer, ostream_sizing}
use league_ranker.Nanopb.Ostream.Buffer.{IsBuffer, emit, emit-IsBuffer}
use league_ranker.Nanopb.Message.{Source, encode, encode_nullterminated, get_encoded_size}
use league_ranker.Nanopb.Message.Outcome.{
  Outcome, written, ◌then◌, Ends, IsClean, Encodes, added, then-Encodes, write-Encodes,
}
use league_ranker.Nanopb.Message.Submessage.{sizing-IsCounter}
use league_ranker.Nanopb.Message.Format.{Users, message_outcome}
use league_ranker.Nanopb.Message.Refines.Fields.{IsSource}
use league_ranker.Nanopb.Message.Refines.Whole.{encode-Encodes}

-- Whether a size that was found fits.
abbrev pub fits_in : Option ℕ → ℕ → Bool
fits_in none size = false
fits_in (some n) size = leb n size

abbrev size_of : Bool × Ostream → Option ℕ
size_of (sized, stream) = if sized then some stream.bytes_written else none

pub buffer-IsClean :
    (buf : List ℕ) (size : ℕ)
    → size < 2 ^ 63
    → size ≤ length buf
    → IsClean (ostream_from_buffer buf size)
unfolding ostream_from_buffer
buffer-IsClean buf size small room = record {
  buffer = record { writes = refl; fits = omega arith; room = omega arith; small = small };
  clean = refl;
}

sized_bytes : (n : ℕ) → n < 2 ^ 63 → (added n ostream_sizing).bytes_written ≡ n
unfolding added ostream_sizing
sized_bytes n small = omega arith

module _ (e : Encoder) (buf : List ℕ) (size : ℕ) (small : size < 2 ^ 63)
    (room : size ≤ length buf) where
  sizes_exactly :
      (o : Outcome)
      → Encodes e o
      → length o.0 < 2 ^ 63
      → (e (ostream_from_buffer buf size)).0 ≡ fits_in (size_of (e ostream_sizing)) size
  unfolding ostream_from_buffer
  sizes_exactly (bs, true) h short =
      let clean = buffer-IsClean buf size small room in
      elim (dec_le (length bs) size) [
        | yes under ↦
            let fits : 0 + length bs ≤ size = omega arith in
            rw
              (
                h.counts ostream_sizing sizing-IsCounter,
                h.stored short (ostream_from_buffer buf size) clean fits,
              )
              (ground (arith, sized_bytes (length bs) short))
        | no over ↦ rw (h.counts ostream_sizing sizing-IsCounter) (
            (h.refused short (ostream_from_buffer buf size) clean (omega arith)).0
            ∙ ground (arith, sized_bytes (length bs) short))
      ]
  sizes_exactly (bs, false) h short =
      let clean = buffer-IsClean buf size small room in
      let uncounted = h.counts ostream_sizing sizing-IsCounter in
      let missing : false ≡ fits_in (size_of (e ostream_sizing)) size = rw uncounted refl in
      elim (dec_le (length bs) size) [
        | yes under ↦
            (h.stored short (ostream_from_buffer buf size) clean (omega arith)).0 ∙ missing
        | no over ↦ (h.refused short (ostream_from_buffer buf size) clean (omega arith)).0 ∙ missing
      ]

Ends-IsBuffer :
    (b : Bool) (r : Bool × Ostream) (t : Ostream) → Ends b r t → IsBuffer t → IsBuffer r.1
Ends-IsBuffer true r t e v = rw e v
Ends-IsBuffer false r t e v = e.1

-- An encoder never leaves the buffer.
stays_in :
    (e : Encoder) (o : Outcome)
    → Encodes e o
    → length o.0 < 2 ^ 63
    → (s : Ostream) → IsClean s
    → IsBuffer (e s).1
stays_in e (bs, b) h short s v = elim (dec_le (s.bytes_written + length bs) s.max_size) [
  | yes fits ↦
      Ends-IsBuffer b (e s) (emit bs s) (h.stored short s v fits) (emit-IsBuffer bs v.buffer fits)
  | no over ↦ (h.refused short s v (omega arith)).1
]

-- On a buffer of `size` bytes `pb_encode` succeeds just where `pb_get_encoded_size` gives a size that
-- is no larger, for messages whose bytes are fewer than 2 ^ 63.
pub get_encoded_size_exact :
    (c : Source) (u : Users)
    → IsSource c u
    → (fuel fields src : ℕ) → length (message_outcome c.mem c.fields u fuel fields src).0 < 2 ^ 63
    → (buf : List ℕ) (size : ℕ) → size < 2 ^ 63
    → size ≤ length buf
    → (encode c fuel fields src (ostream_from_buffer buf size)).0
      ≡ fits_in (get_encoded_size c fuel fields src) size
unfolding get_encoded_size
get_encoded_size_exact c u v fuel fields src short buf size small room =
    sizes_exactly (encode c fuel fields src) buf size small room
      (message_outcome c.mem c.fields u fuel fields src) (encode-Encodes c u v fuel fields src)
      short

-- `pb_encode` leaves a stream over a buffer within its buffer, also where it fails: it does not
-- count past `max_size`, nor past the memory, for messages whose bytes are fewer than 2 ^ 63.
pub encode-IsBuffer :
    (c : Source) (u : Users)
    → IsSource c u
    → (fuel fields src : ℕ) → length (message_outcome c.mem c.fields u fuel fields src).0 < 2 ^ 63
    → (s : Ostream) → IsClean s
    → IsBuffer (encode c fuel fields src s).1
encode-IsBuffer c u v fuel fields src short s clean =
    stays_in (encode c fuel fields src) (message_outcome c.mem c.fields u fuel fields src)
      (encode-Encodes c u v fuel fields src) short s clean

-- `pb_encode_nullterminated` comes to the message and a zero byte behind it.
pub encode_nullterminated-Encodes :
    (c : Source) (u : Users)
    → IsSource c u
    → (fuel fields src : ℕ)
    → Encodes
        (encode_nullterminated c fuel fields src)
        (message_outcome c.mem c.fields u fuel fields src then written (0 ∷ []))
unfolding encode_nullterminated
encode_nullterminated-Encodes c u v fuel fields src =
    then-Encodes (encode c fuel fields src) (λ s. write s (0 ∷ []) 1) _ _
      (encode-Encodes c u v fuel fields src) (write-Encodes (0 ∷ []))
