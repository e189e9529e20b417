-- ===== src/Nanopb/Decode.antt =====
-- ScoreSender/Pods/nanopb/pb_decode.c: varints, tags, fixed-width scalars, skipping a field, and
-- the substream of a length-delimited field.
pub mod Varint
pub mod Varint32
pub mod Tag
pub mod Fuel
pub mod Overlong
pub mod Skip
pub mod Bounds
pub mod Scalars
use league_ranker.Prelude.{
  ℕ, zero, suc, ◌+◌, ◌-◌, ◌*◌, ◌/◌, ◌%◌, ◌^◌, bit_and, bit_or, Bool, true, false, not, ◌&&◌, ◌||◌,
  Option, none, some, List, [], ◌∷◌, ◌++◌, ltb, leb, ◌==◌, if◌then◌else◌, get_or,
}
use league_ranker.Nanopb.Types.{
  WireType, Errmsg, end_of_stream, varint_overflow, invalid_wire_type, parent_stream_too_short,
  sub_size,
}
use league_ranker.Nanopb.Istream.{
  Istream, Decoder, ◌>>=◌, pure, return_error, out_of_fuel, read_into, skip, readbyte,
}

-- `result |= (uint64_t)(byte & 0x7F) << bitpos`
unfoldable pub add_group64 : ℕ → ℕ → ℕ → ℕ
add_group64 result bitpos byte = bit_or result (bit_and byte 0x7f * 2 ^ bitpos % 2 ^ 64)

-- The do-while loop of `pb_decode_varint`. It ends in its eleventh round at the latest.
unfoldable pub varint_loop : ℕ → ℕ → ℕ → Decoder ℕ
varint_loop zero result bitpos = out_of_fuel
varint_loop (suc fuel) result bitpos = elim (leb 64 bitpos) [
  | true ↦ return_error varint_overflow
  | false ↦ readbyte >>= λ byte. elim (bit_and byte 0x80 == 0) [
    | true ↦ pure (add_group64 result bitpos byte)
    | false ↦ varint_loop fuel (add_group64 result bitpos byte) ((bitpos + 7) % 2 ^ 8)
  ]
]

unfoldable pub decode_varint : Decoder ℕ
decode_varint = varint_loop 11 0 0

-- One round of the multibyte loop of `pb_decode_varint32_eof`; `none` is its "varint overflow".
unfoldable pub add_group32 : ℕ → ℕ → ℕ → Option ℕ
add_group32 result bitpos byte =
    if leb 32 bitpos
    then (let sign_extension : ℕ = if ltb bitpos 63 then 0xff else 0x01 in
        if not (bit_and byte 0x7f == 0) && ((result / 2 ^ 31 == 0) || not (byte == sign_extension))
        then none
        else some result)
    else some (bit_or result (bit_and byte 0x7f * 2 ^ bitpos % 2 ^ 32))

-- The check behind that loop.
unfoldable pub last_group32 : ℕ → ℕ → ℕ → Decoder ℕ
last_group32 result bitpos byte =
    if (bitpos == 35) && not (bit_and byte 0x70 == 0)
    then return_error varint_overflow
    else pure result

-- `bitpos` is a `uint_fast8_t`, of eight bits. Every round reads a byte, so the loop has ended
-- before a fuel above `bytes_left` is used up.
unfoldable pub varint32_loop : ℕ → ℕ → ℕ → Decoder ℕ
varint32_loop zero result bitpos = out_of_fuel
varint32_loop (suc fuel) result bitpos = readbyte >>= λ byte.
    elim (add_group32 result bitpos byte) [
      | none ↦ return_error varint_overflow
      | some next ↦ elim (bit_and byte 0x80 == 0) [
        | true ↦ last_group32 next ((bitpos + 7) % 2 ^ 8) byte
        | false ↦ varint32_loop fuel next ((bitpos + 7) % 2 ^ 8)
      ]
    ]

-- The value, and whether `*eof` was set.
unfoldable pub decode_varint32_eof : Istream → (Option ℕ × Bool) × Istream
decode_varint32_eof s =
    let (first, s₁) = readbyte s in
    elim first [
      | none ↦ ((none, s₁.bytes_left == 0), s₁)
      | some byte ↦ elim (bit_and byte 0x80 == 0) [
        | true ↦ ((some byte, false), s₁)
        | false ↦
            let (value, s₂) = varint32_loop (suc s₁.bytes_left) (bit_and byte 0x7f) 7 s₁ in
            ((value, false), s₂)
      ]
    ]

unfoldable pub decode_varint32 : Decoder ℕ
decode_varint32 s = let ((value, eof), s') = decode_varint32_eof s in (value, s')

-- What `pb_decode_tag` reports: a tag, `*eof` with a false return, or a false return alone.
pub data TagResult : Type 0 where
  tag : WireType → ℕ → TagResult
  eof fail : TagResult

unfoldable pub decode_tag : Istream → TagResult × Istream
decode_tag s =
    let ((value, at_end), s') = decode_varint32_eof s in
    elim value [
      | none ↦ (if at_end then eof else fail, s')
      | some temp ↦ if temp == 0 then (eof, s') else (tag (bit_and temp 7) (temp / 2 ^ 3), s')
    ]

-- `do { pb_read(stream, &byte, 1) } while (byte & 0x80)`: again a byte a round.
unfoldable pub skip_varint_loop : ℕ → Decoder (Unit {0})
skip_varint_loop zero = out_of_fuel
skip_varint_loop (suc fuel) = read_into 1 >>= λ bytes. elim (bit_and (get_or bytes 0 0) 0x80 == 0) [
  | true ↦ pure tt
  | false ↦ skip_varint_loop fuel
]

unfoldable pub skip_varint : Decoder (Unit {0})
skip_varint s = skip_varint_loop (suc s.bytes_left) s

unfoldable pub skip_string : Decoder (Unit {0})
skip_string = do length ← decode_varint32; bytes ← skip length; pure tt

unfoldable pub skip_field : WireType → Decoder (Unit {0})
skip_field wire_type =
    if wire_type == 0
    then skip_varint
    else if wire_type == 1
    then (skip 8 >>= λ _. pure tt)
    else if wire_type == 2
    then skip_string
    else if wire_type == 5
    then (skip 4 >>= λ _. pure tt)
    else return_error invalid_wire_type

-- `pb_decode_svarint`; `~` flips all 64 bits, and the result is the pattern of an `int64_t`.
unfoldable pub unzigzag : ℕ → ℕ
unzigzag value = if bit_and value 1 == 0 then value / 2 else 2 ^ 64 - 1 - value / 2

unfoldable pub decode_svarint : Decoder ℕ
decode_svarint = do value ← decode_varint; pure (unzigzag value)

unfoldable pub fixed32_value : List ℕ → ℕ
fixed32_value bytes =
    bit_or
      (bit_or (bit_or (get_or bytes 0 0 * 2 ^ 0) (get_or bytes 1 0 * 2 ^ 8))
        (get_or bytes 2 0 * 2 ^ 16))
      (get_or bytes 3 0 * 2 ^ 24)

unfoldable pub decode_fixed32 : Decoder ℕ
decode_fixed32 = do bytes ← read_into 4; pure (fixed32_value bytes)

-- The four bytes more of `pb_decode_fixed64`.
unfoldable pub fixed64_value : List ℕ → ℕ
unfolding fixed32_value
fixed64_value bytes =
    bit_or
      (bit_or
        (bit_or (bit_or (fixed32_value bytes) (get_or bytes 4 0 * 2 ^ 32))
          (get_or bytes 5 0 * 2 ^ 40))
        (get_or bytes 6 0 * 2 ^ 48))
      (get_or bytes 7 0 * 2 ^ 56)

unfoldable pub decode_fixed64 : Decoder ℕ
decode_fixed64 = do bytes ← read_into 8; pure (fixed64_value bytes)
