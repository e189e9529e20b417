-- ===== src/Nanopb/Decode/Scalars.antt =====
-- The scalar decoders read back what the scalar encoders write.
use native.Mathlib.Nat.{mod-lt, one-le-pow}
use league_ranker.Prelude.{
  ℕ, ◌+◌, ◌-◌, ◌*◌, ◌/◌, ◌%◌, ◌^◌, ◌≡◌, ◌∙◌, bit_and, bit_or, some, List, [], ◌∷◌, length, arith,
  take-append, drop-append,
}
use league_ranker.Prelude.Bits.{bit_and-mask, bit_or-shifted}
use league_ranker.Nanopb.Types.{IsU32, IsU64}
use league_ranker.Nanopb.Istream.{Istream, pure, read_into, >>=-some}
use league_ranker.Nanopb.Decode.{
  unzigzag, decode_varint, decode_svarint, fixed32_value, decode_fixed32, fixed64_value,
  decode_fixed64,
}
use league_ranker.Nanopb.Decode.Varint.{Ahead, behind, decode_varint-varint}
use league_ranker.Nanopb.Encode.{zigzag, fixed32_bytes, fixed64_bytes}
use league_ranker.Nanopb.Encode.Varint.{varint}
use league_ranker.Nanopb.Encode.Scalars.{zigzag-lt}

pub read_into_lem :
    (bytes rest : List ℕ) {s : Istream}
    → Ahead bytes rest s
    → read_into (length bytes) s ≡ (some bytes, behind (length bytes) rest s)
unfolding read_into
read_into_lem bytes rest {s} a = ground (arith, take-append bytes rest, drop-append bytes rest)

-- The sign goes to the lowest bit and comes back from it.
pub unzigzag-zigzag : (value : ℕ) → IsU64 value → unzigzag (zigzag value) ≡ value
unfolding unzigzag zigzag
unzigzag-zigzag value h =
    ground
      (arith, bit_and-mask 1 (2 ^ 64 - 1 - value * 2 % 2 ^ 64), bit_and-mask 1 (value * 2 % 2 ^ 64))

-- The bytes of `val` from byte `i` on, put together low to high.
byte_mask : (val : ℕ) → bit_and val 0xff ≡ val % 256
byte_mask val = bit_and-mask 8 val

abbrev byte_at : ℕ → ℕ → ℕ
byte_at val k = bit_and (val / 2 ^ k) 0xff

-- One byte more.
join_byte :
    (k val : ℕ)
    → bit_or (val % 2 ^ k) (byte_at val k * 2 ^ k) ≡ val % 2 ^ k + val / 2 ^ k % 256 * 2 ^ k
join_byte k val =
    rw byte_mask (
      bit_or-shifted k (val % 2 ^ k) (val / 2 ^ k % 256)
        (mod-lt val (one-le-pow k 2 (omega arith))))

fixed32_lem :
    (val : ℕ) (bytes : List ℕ)
    → fixed32_value (bit_and val 0xff ∷ byte_at val 8 ∷ byte_at val 16 ∷ byte_at val 24 ∷ bytes)
      ≡ val % 2 ^ 32
unfolding fixed32_value
fixed32_lem val bytes =
    ground (arith, byte_mask val, join_byte 8 val, join_byte 16 val, join_byte 24 val)

fixed64_lem :
    (val : ℕ)
    → fixed64_value (
        bit_and val 0xff
        ∷ byte_at val 8
        ∷ byte_at val 16
        ∷ byte_at val 24
        ∷ byte_at val 32
        ∷ byte_at val 40
        ∷ byte_at val 48
        ∷ byte_at val 56
        ∷ [])
      ≡ val % 2 ^ 64
unfolding fixed64_value
fixed64_lem val =
    rw (fixed32_lem val (byte_at val 32 ∷ byte_at val 40 ∷ byte_at val 48 ∷ byte_at val 56 ∷ []))
      (ground (arith, join_byte 32 val, join_byte 40 val, join_byte 48 val, join_byte 56 val))

pub decode_fixed32-bytes :
    (val : ℕ) (rest : List ℕ) {s : Istream}
    → IsU32 val
    → Ahead (fixed32_bytes val) rest s
    → decode_fixed32 s ≡ (some val, behind 4 rest s)
unfolding decode_fixed32 fixed32_bytes
decode_fixed32-bytes val rest {s} h a =
    >>=-some (read_into 4) (λ bytes. pure (fixed32_value bytes)) s
      (read_into_lem (fixed32_bytes val) rest a)
    ∙ ground (arith, fixed32_lem val [])

pub decode_fixed64-bytes :
    (val : ℕ) (rest : List ℕ) {s : Istream}
    → IsU64 val
    → Ahead (fixed64_bytes val) rest s
    → decode_fixed64 s ≡ (some val, behind 8 rest s)
unfolding decode_fixed64 fixed64_bytes
decode_fixed64-bytes val rest {s} h a =
    >>=-some (read_into 8) (λ bytes. pure (fixed64_value bytes)) s
      (read_into_lem (fixed64_bytes val) rest a)
    ∙ ground (arith, fixed64_lem val)

pub decode_svarint-varint :
    (value : ℕ) (rest : List ℕ) {s : Istream}
    → IsU64 value
    → Ahead (varint 9 (zigzag value)) rest s
    → decode_svarint s ≡ (some value, behind (length (varint 9 (zigzag value))) rest s)
unfolding decode_svarint
decode_svarint-varint value rest {s} h a =
    >>=-some decode_varint (λ v. pure (unzigzag v)) s
      (decode_varint-varint (zigzag value) rest (zigzag-lt value h) a)
    ∙ ground (arith, unzigzag-zigzag value h)
