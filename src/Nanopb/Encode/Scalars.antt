-- ===== src/Nanopb/Encode/Scalars.antt =====
-- The bytes that each scalar encoder writes.
use mathlib.Core.Path.{subst}
use league_ranker.Prelude.{ℕ, ◌+◌, ◌*◌, ◌^◌, ◌<◌, ◌≡◌, sym, false, List, ◌++◌, length, arith}
use league_ranker.Prelude.Bits.{bit_or-shifted, bit_or_comm}
use league_ranker.Nanopb.Types.{IsU64}
use league_ranker.Nanopb.Ostream.{Ostream, write}
use league_ranker.Nanopb.Ostream.Buffer.{IsBuffer}
use league_ranker.Nanopb.Ostream.Writes.{Writes, write-Writes, Writes-then}
use league_ranker.Nanopb.Encode.{
  varint_buffer, encode_varint, zigzag, encode_svarint, fixed32_bytes, encode_fixed32,
  fixed64_bytes, encode_fixed64, tag_word, encode_tag, encode_string,
}
use league_ranker.Nanopb.Encode.Varint.{varint, varint_buffer-varint, length-varint}

pub encode_varint-Writes : (v : ℕ) → IsU64 v → Writes (encode_varint v) (varint 9 v)
unfolding encode_varint
encode_varint-Writes v h =
    subst (λ bs. Writes (λ s. write s bs (length bs)) (varint 9 v)) (sym (varint_buffer-varint v h))
      (write-Writes (varint 9 v) (omega (arith, length-varint 9 v)))

pub zigzag-lt : (v : ℕ) → IsU64 v → IsU64 (zigzag v)
unfolding zigzag
zigzag-lt v h = ground arith

pub encode_svarint-Writes : (v : ℕ) → IsU64 v → Writes (encode_svarint v) (varint 9 (zigzag v))
unfolding encode_svarint
encode_svarint-Writes v h = encode_varint-Writes (zigzag v) (zigzag-lt v h)

pub encode_fixed32-Writes : (v : ℕ) → Writes (encode_fixed32 v) (fixed32_bytes v)
unfolding encode_fixed32 fixed32_bytes
encode_fixed32-Writes v = write-Writes (fixed32_bytes v) (omega arith)

pub encode_fixed64-Writes : (v : ℕ) → Writes (encode_fixed64 v) (fixed64_bytes v)
unfolding encode_fixed64 fixed64_bytes
encode_fixed64-Writes v = write-Writes (fixed64_bytes v) (omega arith)

-- The two parts of a tag do not overlap.
pub tag_word-eq :
    (wiretype field_number : ℕ)
    → wiretype < 8
    → field_number < 2 ^ 61
    → tag_word wiretype field_number ≡ wiretype + field_number * 8
unfolding tag_word
tag_word-eq wiretype field_number hw hf =
    ground (arith, bit_or_comm (field_number * 8) wiretype, bit_or-shifted 3 wiretype field_number)

pub encode_tag-Writes :
    (wiretype field_number : ℕ)
    → wiretype < 8
    → field_number < 2 ^ 32
    → Writes (encode_tag wiretype field_number) (varint 9 (wiretype + field_number * 8))
unfolding encode_tag
encode_tag-Writes wiretype field_number hw hf =
    rw (tag_word-eq wiretype field_number hw (omega arith))
      (encode_varint-Writes (wiretype + field_number * 8) (omega arith))

pub encode_string-Writes :
    (buffer : List ℕ)
    → length buffer < 2 ^ 63
    → Writes (encode_string buffer (length buffer)) (varint 9 (length buffer) ++ buffer)
unfolding encode_string
encode_string-Writes buffer h =
    Writes-then (encode_varint-Writes (length buffer) (omega arith)) (write-Writes buffer h)

-- Where a string and its length do not both fit, `pb_encode_string` fails, and the stream has not
-- left its buffer.
pub encode_string_full :
    (buffer : List ℕ) {s : Ostream}
    → length buffer < 2 ^ 63
    → IsBuffer s
    → s.max_size < s.bytes_written + length (varint_buffer (length buffer) ++ buffer)
    → let (done, t) = encode_string buffer (length buffer) s in (done ≡ false) × IsBuffer t
encode_string_full buffer {s} h v over =
    (encode_string-Writes buffer h).refused s v
      (rw (varint_buffer-varint (length buffer) (omega arith)) at over)
