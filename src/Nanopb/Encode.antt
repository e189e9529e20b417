-- ===== src/Nanopb/Encode.antt =====
-- ScoreSender/Pods/nanopb/pb_encode.c: the helpers that encode scalars, tags and strings.
pub mod Varint
pub mod Scalars
use league_ranker.Prelude.{
  ℕ, zero, suc, ◌-◌, ◌*◌, ◌/◌, ◌%◌, ◌^◌, bit_and, bit_or, List, [], ◌∷◌, leb, ◌==◌, if◌then◌else◌,
  length,
}
use league_ranker.Nanopb.Types.{WireType}
use league_ranker.Nanopb.Ostream.{Encoder, write, ◌>>◌}

-- The rounds of `while (value)`; the fuel is the size of `buffer`, ten bytes.
unfoldable pub groups : ℕ → ℕ → List ℕ
groups zero value = []
groups (suc room) value =
    let rest = groups room (value / 2 ^ 7) in
    if value == 0 then [] else bit_or (bit_and value 0x7f) 0x80 ∷ rest

-- `buffer[i-1] &= 0x7F`
unfoldable pub unset_last : List ℕ → List ℕ
unset_last [] = []
unset_last (b ∷ []) = bit_and b 0x7f ∷ []
unset_last (b ∷ c ∷ bs) = b ∷ unset_last (c ∷ bs)

-- The bytes that `pb_encode_varint` hands to `pb_write`.
unfoldable pub varint_buffer : ℕ → List ℕ
unfolding groups unset_last
varint_buffer value = if leb value 0x7f then value % 256 ∷ [] else unset_last (groups 10 value)

unfoldable pub encode_varint : ℕ → Encoder
encode_varint value s = let buffer = varint_buffer value in write s buffer (length buffer)

-- `value` is the pattern of an `int64_t`, negative from 2 ^ 63 on; `~` flips all 64 bits.
unfoldable pub zigzag : ℕ → ℕ
zigzag value = if leb (2 ^ 63) value then 2 ^ 64 - 1 - value * 2 % 2 ^ 64 else value * 2 % 2 ^ 64

unfoldable pub encode_svarint : ℕ → Encoder
encode_svarint value = encode_varint (zigzag value)

unfoldable pub fixed32_bytes : ℕ → List ℕ
fixed32_bytes val =
    bit_and val 0xff
    ∷ bit_and (val / 2 ^ 8) 0xff
    ∷ bit_and (val / 2 ^ 16) 0xff
    ∷ bit_and (val / 2 ^ 24) 0xff
    ∷ []

unfoldable pub encode_fixed32 : ℕ → Encoder
encode_fixed32 val s = write s (fixed32_bytes val) 4

unfoldable pub fixed64_bytes : ℕ → List ℕ
fixed64_bytes val =
    bit_and val 0xff
    ∷ bit_and (val / 2 ^ 8) 0xff
    ∷ bit_and (val / 2 ^ 16) 0xff
    ∷ bit_and (val / 2 ^ 24) 0xff
    ∷ bit_and (val / 2 ^ 32) 0xff
    ∷ bit_and (val / 2 ^ 40) 0xff
    ∷ bit_and (val / 2 ^ 48) 0xff
    ∷ bit_and (val / 2 ^ 56) 0xff
    ∷ []

unfoldable pub encode_fixed64 : ℕ → Encoder
encode_fixed64 val s = write s (fixed64_bytes val) 8

-- `((pb_uint64_t)field_number << 3) | wiretype`
unfoldable pub tag_word : WireType → ℕ → ℕ
tag_word wiretype field_number = bit_or (field_number * 2 ^ 3 % 2 ^ 64) wiretype

unfoldable pub encode_tag : WireType → ℕ → Encoder
encode_tag wiretype field_number = encode_varint (tag_word wiretype field_number)

-- `buffer` holds `size` bytes at least, or is NULL, which is `[]`.
unfoldable pub encode_string : List ℕ → ℕ → Encoder
encode_string buffer size = encode_varint size >> λ s. write s buffer size
