-- ===== src/Nanopb/Types.antt =====
-- ScoreSender/Pods/nanopb/pb.h: the wire types, the parts of a field type, field descriptors and
-- error messages.
use league_ranker.Prelude.{ℕ, ◌+◌, ◌-◌, ◌%◌, ◌^◌, ◌<◌, Option, none, some}

-- The messages that PB_RETURN_ERROR is called with in pb_encode.c and pb_decode.c.
pub data Errmsg : Type 0 where
  stream_full io_error array_max_size_exceeded missing_required_field invalid_field_type : Errmsg
  callback_error submsg_size_changed invalid_data_size bytes_size_exceeded : Errmsg
  invalid_field_descriptor end_of_stream varint_overflow invalid_wire_type : Errmsg
  parent_stream_too_short array_overflow integer_too_large bytes_overflow : Errmsg
  size_too_large string_overflow incorrect_fixed_length_bytes_size invalid_size : Errmsg
  realloc_failed too_many_array_entries callback_failed invalid_union_tag : Errmsg
  iterator_error wrong_size_for_fixed_count_field : Errmsg

-- `(stream)->errmsg = (stream)->errmsg ? (stream)->errmsg : (msg)`: the first message stays.
abbrev pub keep_first : Option Errmsg → Errmsg → Option Errmsg
keep_first none e = some e
keep_first (some old) e = some old

-- `pb_wire_type_t`. The decoder casts three bits to it, so it is any number below 8.
abbrev pub WireType : Type 0
WireType = ℕ

abbrev pub wt_varint : WireType
wt_varint = 0

abbrev pub wt_64bit : WireType
wt_64bit = 1

abbrev pub wt_string : WireType
wt_string = 2

abbrev pub wt_32bit : WireType
wt_32bit = 5

-- `size_t` and `uint64_t` are 64 bits wide, `uint32_t` and `pb_size_t` 32.
abbrev pub add_size : ℕ → ℕ → ℕ
add_size a b = (a + b) % 2 ^ 64

abbrev pub sub_size : ℕ → ℕ → ℕ
sub_size a b = (a + 2 ^ 64 - b) % 2 ^ 64

abbrev pub IsByte : ℕ → Type 0
IsByte b = b < 256

abbrev pub IsU32 : ℕ → Type 0
IsU32 v = v < 2 ^ 32

abbrev pub IsU64 : ℕ → Type 0
IsU64 v = v < 2 ^ 64
