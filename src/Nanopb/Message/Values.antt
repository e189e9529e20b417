-- ===== src/Nanopb/Message/Values.antt =====
-- ScoreSender/Pods/nanopb/pb_encode.c: the encoders of strings, bytes, submessages and arrays.
use league_ranker.Prelude.{
  ℕ, zero, suc, ◌-◌, ◌*◌, ◌%◌, ◌^◌, true, false, not, ◌&&◌, ◌||◌, Option, none, some, [], ltb, ◌==◌,
  if◌then◌else◌,
}
use league_ranker.Nanopb.Types.{
  wt_varint, wt_64bit, wt_string, wt_32bit, stream_full, invalid_field_type, submsg_size_changed,
  bytes_size_exceeded, add_size,
}
use league_ranker.Nanopb.Ostream.{Encoder, ◌>>◌, return_error, write, ostream_sizing}
use league_ranker.Nanopb.Encode.{encode_varint, encode_tag, encode_string}
use league_ranker.Nanopb.Iter.{Field, atype, ltype}
use league_ranker.Nanopb.Store.{
  Mem, offset, size_at, bytes_at, strnlen, array_bytes, bytes_array_allocsize,
}

-- `return true`, and the end of the fuel or the call of an encoder that is not there.
abbrev pub done : Encoder
done s = (true, s)

abbrev pub stuck : Encoder
stuck s = (false, s)

-- `pb_encode_tag_for_field`
unfoldable pub encode_tag_for_field : Field → Encoder
encode_tag_for_field field =
    let t = ltype field.type in
    if (t == 0) || ((t == 1) || (t == 2))
    then encode_tag wt_varint field.tag
    else if t == 3
    then encode_tag wt_32bit field.tag
    else if t == 4
    then encode_tag wt_64bit field.tag
    else if (t == 5) || ((t == 6) || ((t == 7) || (t == 9)))
    then encode_tag wt_string field.tag
    else return_error invalid_field_type

-- The second pass of `pb_encode_submessage`, which writes no more than the `size` of the first.
unfoldable pub submessage_body : Encoder → ℕ → Encoder
submessage_body message size s = elim s.callback [
  | none ↦ write s [] size
  | some call ↦
      if ltb s.max_size (add_size s.bytes_written size)
      then return_error stream_full s
      else let (status, sub) = message (record {
        callback = some call;
        state = s.state;
        max_size = size;
        bytes_written = 0;
        errmsg = none;
      }) in
        let s' = record s {
          bytes_written = add_size s.bytes_written sub.bytes_written;
          state = sub.state;
          errmsg = sub.errmsg;
        } in
        if not (sub.bytes_written == size)
        then return_error submsg_size_changed s'
        else (status, s')
]

-- `pb_encode_submessage`, for the encoder of the message.
unfoldable pub encode_submessage : Encoder → Encoder
encode_submessage message s =
    let (sized, sub) = message ostream_sizing in
    if not sized
    then (false, record s { errmsg = sub.errmsg })
    else (encode_varint sub.bytes_written >> submessage_body message sub.bytes_written) s

-- `pb_enc_bytes`, `pb_enc_string` and `pb_enc_fixed_length_bytes`
unfoldable pub enc_bytes : Mem → Field → ℕ → Encoder
enc_bytes mem field src =
    let size = size_at mem src in
    if src == 0
    then encode_string [] 0
    else if (atype field.type == 0x00) && ltb field.data_size (bytes_array_allocsize size)
    then return_error bytes_size_exceeded
    else encode_string (bytes_at mem size (array_bytes src)) size

unfoldable pub string_size : Mem → Field → ℕ → ℕ
string_size mem field src =
    if src == 0
    then 0
    else strnlen mem (if atype field.type == 0x80 then 2 ^ 64 - 1 else field.data_size) src

unfoldable pub enc_string : Mem → Field → ℕ → Encoder
unfolding string_size
enc_string mem field src =
    let size = string_size mem field src in encode_string (bytes_at mem size src) size

unfoldable pub enc_fixed_length_bytes : Mem → Field → ℕ → Encoder
enc_fixed_length_bytes mem field src =
    encode_string (bytes_at mem field.data_size src) field.data_size

-- `for (i = 0; i < count; i++) { if (!func(stream, field, p)) return false; p += data_size; }`
unfoldable pub array_loop : (ℕ → Encoder) → ℕ → ℕ → ℕ → Encoder
array_loop func zero data_size p = done
array_loop func (suc count) data_size p =
    func p >> array_loop func count data_size (offset p data_size)

-- The size of a packed array, if its elements can be encoded.
unfoldable pub packed_size : (ℕ → Encoder) → Field → ℕ → ℕ → Option ℕ
unfolding array_loop
packed_size func field p count =
    if ltype field.type == 3
    then some (4 * count % 2 ^ 64)
    else if ltype field.type == 4
    then some (8 * count % 2 ^ 64)
    else let (sized, sub) = array_loop func count field.data_size p ostream_sizing in
      if sized then some sub.bytes_written else none

-- The bytes of a packed array behind its size.
unfoldable pub packed_body : Encoder → ℕ → Encoder
packed_body elements size s = elim s.callback [ none ↦ write s [] size | some call ↦ elements s ]

abbrev pub packed_from : Encoder → Option ℕ → Encoder
packed_from elements none = stuck
packed_from elements (some size) = encode_varint size >> packed_body elements size
