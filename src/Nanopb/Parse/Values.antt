-- ===== src/Nanopb/Parse/Values.antt =====
-- ScoreSender/Pods/nanopb/pb_decode.c: the decoders of single values, which store them at `dest`.
use league_ranker.Prelude.{ℕ, ◌+◌, ◌-◌, ◌%◌, ◌^◌, not, Option, none, some, ltb, ◌==◌, if◌then◌else◌}
use league_ranker.Nanopb.Types.{
  invalid_data_size, integer_too_large, bytes_overflow, size_too_large, string_overflow,
  incorrect_fixed_length_bytes_size,
}
use league_ranker.Nanopb.Decode.{
  decode_varint, decode_varint32, decode_svarint, decode_fixed32, decode_fixed64,
}
use league_ranker.Nanopb.Iter.{Field, atype}
use league_ranker.Nanopb.Fields.{extend, clamp_signed, clamp_unsigned}
use league_ranker.Nanopb.Store.{pointer_at, array_bytes, bytes_array_allocsize, offset}
use league_ranker.Nanopb.World.{
  Libc, Run, ◌>>=◌, pure, return_error, lift, look, change, store, set_size, clear, read_to,
  allocate_field,
}

-- The store with its cast, and the checks behind it: `dest` is changed also where the number is
-- too large.
unfoldable pub store_integer : Field → ℕ → Option (ℕ × ℕ) → ℕ → Run (Unit {0})
store_integer field dest none value = return_error invalid_data_size
store_integer field dest (some (cast, clamped)) value =
    change (store field.data_size cast dest) >>= λ _.
    if clamped == value then pure tt else return_error integer_too_large

unfoldable pub dec_varint_to : Field → ℕ → Run (Unit {0})
unfolding store_integer
dec_varint_to field dest = lift decode_varint >>= λ value.
    let svalue = if field.data_size == 8 then value else extend 32 (value % 2 ^ 32) in
    store_integer field dest (clamp_signed field.data_size svalue) svalue

unfoldable pub dec_uvarint_to : Field → ℕ → Run (Unit {0})
unfolding store_integer
dec_uvarint_to field dest = lift decode_varint >>= λ value.
    store_integer field dest (clamp_unsigned field.data_size value) value

unfoldable pub dec_svarint_to : Field → ℕ → Run (Unit {0})
unfolding store_integer
dec_svarint_to field dest = lift decode_svarint >>= λ value.
    store_integer field dest (clamp_signed field.data_size value) value

unfoldable pub dec_fixed32 : ℕ → Run (Unit {0})
dec_fixed32 dest = lift decode_fixed32 >>= λ value. change (store 4 value dest)

unfoldable pub dec_fixed64 : ℕ → Run (Unit {0})
dec_fixed64 dest = lift decode_fixed64 >>= λ value. change (store 8 value dest)

-- The block of a pointer field, or its own place if the value fits into it.
abbrev pub room_for : Libc → Field → ℕ → ℕ → Run (Unit {0}) → Run ℕ
room_for libc field dest alloc_size overflow =
    if atype field.type == 0x80
    then (allocate_field libc dest alloc_size 1 >>= λ _. look (λ w. pointer_at w.mem dest))
    else if ltb field.data_size alloc_size
    then (overflow >>= λ _. pure dest)
    else pure dest

-- The size is 32 bits wide, so that neither `size > PB_SIZE_MAX` nor `size > alloc_size` can be.
unfoldable pub dec_bytes : Libc → Field → ℕ → Run (Unit {0})
dec_bytes libc field dest = lift decode_varint32 >>= λ size.
    if ltb (2 ^ 32 - 1) size
    then return_error bytes_overflow
    else if ltb (bytes_array_allocsize size) size
    then return_error size_too_large
    else room_for libc field dest (bytes_array_allocsize size) (return_error bytes_overflow)
      >>= λ bdest. change (set_size size bdest) >>= λ _. read_to (array_bytes bdest) size

-- The terminator is stored whatever the status.
unfoldable pub terminated : ℕ → ℕ → Run (Unit {0})
terminated dest size s w =
    let (status, s', w') = read_to dest size s w in (status, s', store 1 0 (offset dest size) w')

-- `alloc_size = size + 1` is computed with 32 bits.
unfoldable pub dec_string : Libc → Field → ℕ → Run (Unit {0})
unfolding terminated
dec_string libc field dest = lift decode_varint32 >>= λ size.
    let alloc_size = (size + 1) % 2 ^ 32 in
    if ltb alloc_size size
    then return_error size_too_large
    else room_for libc field dest alloc_size (return_error string_overflow) >>= λ at.
        terminated at size

unfoldable pub dec_fixed_length_bytes : Field → ℕ → Run (Unit {0})
dec_fixed_length_bytes field dest = lift decode_varint32 >>= λ size.
    if ltb (2 ^ 32 - 1) size
    then return_error bytes_overflow
    else if size == 0
    then change (clear field.data_size dest)
    else if not (size == field.data_size)
    then return_error incorrect_fixed_length_bytes_size
    else read_to dest field.data_size
