-- ===== src/Nanopb/Fields.antt =====
-- ScoreSender/Pods/nanopb/pb_encode.c and pb_decode.c: the encoders and decoders of integer fields,
-- by the size that the field has in its C structure.
pub mod RoundTrip
mod Tests
use league_ranker.Prelude.{
  ℕ, zero, suc, ◌+◌, ◌-◌, ◌*◌, ◌%◌, ◌^◌, Bool, true, false, Option, none, some, leb, ◌==◌,
  if◌then◌else◌,
}
use league_ranker.Nanopb.Types.{Errmsg, invalid_data_size, integer_too_large}
use league_ranker.Nanopb.Ostream
use league_ranker.Nanopb.Istream
use league_ranker.Nanopb.Ostream.{Encoder}
use league_ranker.Nanopb.Encode.{encode_varint, encode_svarint}
use league_ranker.Nanopb.Istream.{Istream, Decoder, ◌>>=◌, pure}
use league_ranker.Nanopb.Decode.{decode_varint, decode_svarint}
use league_ranker.Nanopb.Iter.{Field}

-- A signed integer of so many bits, as the pattern of an `int64_t`.
unfoldable pub extend : ℕ → ℕ → ℕ
extend bits p = if leb (2 ^ (bits - 1)) p then p + (2 ^ 64 - 2 ^ bits) else p

-- The integer that `src` points to, as an `int64_t` or a `uint64_t`, by the size of the field.
unfoldable pub signed_at : ℕ → ℕ → Option ℕ
unfolding extend
signed_at data_size src =
    if data_size == 1
    then some (extend 8 src)
    else if data_size == 2
    then some (extend 16 src)
    else if data_size == 4
    then some (extend 32 src)
    else if data_size == 8
    then some src
    else none

unfoldable pub unsigned_at : ℕ → ℕ → Option ℕ
unsigned_at data_size src =
    if data_size == 1
    then some src
    else if data_size == 2
    then some src
    else if data_size == 4
    then some src
    else if data_size == 8
    then some src
    else none

-- `PB_RETURN_ERROR(stream, "invalid data_size")`, or the encoder of the value.
abbrev pub encode_at : Option ℕ → (ℕ → Encoder) → Encoder
encode_at none encode = Ostream.return_error invalid_data_size
encode_at (some value) encode = encode value

unfoldable pub enc_varint : Field → ℕ → Encoder
enc_varint field src = encode_at (signed_at field.data_size src) encode_varint

unfoldable pub enc_uvarint : Field → ℕ → Encoder
enc_uvarint field src = encode_at (unsigned_at field.data_size src) encode_varint

unfoldable pub enc_svarint : Field → ℕ → Encoder
enc_svarint field src = encode_at (signed_at field.data_size src) encode_svarint

-- The cast to the size of the field: what `dest` holds then, and `clamped`.
unfoldable pub clamp_signed : ℕ → ℕ → Option (ℕ × ℕ)
unfolding extend
clamp_signed data_size svalue =
    if data_size == 8
    then some (svalue, svalue)
    else if data_size == 4
    then some (svalue % 2 ^ 32, extend 32 (svalue % 2 ^ 32))
    else if data_size == 2
    then some (svalue % 2 ^ 16, extend 16 (svalue % 2 ^ 16))
    else if data_size == 1
    then some (svalue % 2 ^ 8, extend 8 (svalue % 2 ^ 8))
    else none

unfoldable pub clamp_unsigned : ℕ → ℕ → Option (ℕ × ℕ)
clamp_unsigned data_size value =
    if data_size == 8
    then some (value, value)
    else if data_size == 4
    then some (value % 2 ^ 32, value % 2 ^ 32)
    else if data_size == 2
    then some (value % 2 ^ 16, value % 2 ^ 16)
    else if data_size == 1
    then some (value % 2 ^ 8, value % 2 ^ 8)
    else none

-- The checks behind the cast. What `dest` holds where they fail is not kept.
abbrev pub checked : Option (ℕ × ℕ) → ℕ → Decoder ℕ
checked none value = Istream.return_error invalid_data_size
checked (some (dest, clamped)) value =
    if clamped == value then pure dest else Istream.return_error integer_too_large

-- What the decoders do with the value. `pb_dec_varint` casts up to 32 bits to `int32_t` first.
unfoldable pub store_varint : Field → ℕ → Decoder ℕ
unfolding extend
store_varint field value =
    let svalue = if field.data_size == 8 then value else extend 32 (value % 2 ^ 32) in
    checked (clamp_signed field.data_size svalue) svalue

unfoldable pub store_uvarint : Field → ℕ → Decoder ℕ
store_uvarint field value = checked (clamp_unsigned field.data_size value) value

unfoldable pub store_svarint : Field → ℕ → Decoder ℕ
store_svarint field value = checked (clamp_signed field.data_size value) value

unfoldable pub dec_varint : Field → Decoder ℕ
dec_varint field = decode_varint >>= store_varint field

unfoldable pub dec_uvarint : Field → Decoder ℕ
dec_uvarint field = decode_varint >>= store_uvarint field

unfoldable pub dec_svarint : Field → Decoder ℕ
dec_svarint field = decode_svarint >>= store_svarint field
