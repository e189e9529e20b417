-- ===== src/Nanopb/Message.antt =====
-- ScoreSender/Pods/nanopb/pb_encode.c: the encoding of whole messages by their descriptors.
pub mod Default
pub mod Presence
pub mod Values
pub mod Outcome
pub mod Submessage
pub mod Contents
pub mod Format
pub mod Refines
pub mod Sample
mod Tests
use league_ranker.Prelude.{
  ℕ, zero, suc, ◌+◌, ◌-◌, ◌*◌, ◌%◌, ◌^◌, Bool, true, false, not, ◌&&◌, ◌||◌, Option, none, some,
  List, [], ◌∷◌, ltb, leb, ◌==◌, if◌then◌else◌, length,
}
use league_ranker.Nanopb.Types.{
  WireType, wt_varint, wt_64bit, wt_string, wt_32bit, Errmsg, stream_full, array_max_size_exceeded,
  missing_required_field, invalid_field_type, callback_error, submsg_size_changed,
  bytes_size_exceeded, invalid_field_descriptor, add_size,
}
use league_ranker.Nanopb.Ostream.{
  OutState, Ostream, Encoder, ◌>>◌, return_error, write, ostream_sizing,
}
use league_ranker.Nanopb.Encode.{
  encode_varint, encode_fixed32, encode_fixed64, encode_tag, encode_string,
}
use league_ranker.Nanopb.Iter.{
  Field, FieldIter, atype, htype, ltype, field_at, iter_begin, iter_next,
}
use league_ranker.Nanopb.Fields.{enc_varint, enc_uvarint, enc_svarint}
use league_ranker.Nanopb.Store.{
  Mem, offset, load, pointer_at, size_at, is_false, bytes_at, strnlen, array_bytes,
  bytes_array_allocsize, callback_arg, extension_dest, extension_next, type_encode, type_arg,
}
use league_ranker.Nanopb.Message.Presence.{data_of, has_field, which_field, count_of}
use league_ranker.Nanopb.Message.Values.{
  done, stuck, encode_tag_for_field, encode_submessage, enc_bytes, enc_string,
  enc_fixed_length_bytes, array_loop, packed_size, packed_from,
}

-- What the encoder reads: the memory, the array of fields at an address, and the user's functions at
-- an address, which encode a field with their `arg`, or an extension.
pub record Source : Type 0 where
  pub mem : Mem
  pub fields : ℕ → List Field
  pub callback : ℕ → Field → ℕ → Encoder
  pub extension : ℕ → ℕ → Encoder

module _ (c : Source) where
  -- One entry of an array that is not packed. Strings and bytes of a pointer field have pointers
  -- for entries.
  unfoldable pub encode_entry : (ℕ → Encoder) → Field → ℕ → Encoder
  encode_entry func field p =
      let at =
        if (atype field.type == 0x80) && ((ltype field.type == 6) || (ltype field.type == 5))
        then pointer_at c.mem p
        else p in
      encode_tag_for_field field >> func at

  unfoldable pub encode_array : (ℕ → Encoder) → Field → ℕ → ℕ → Encoder
  unfolding encode_entry packed_size
  encode_array func field p count =
      if count == 0
      then done
      else if not (atype field.type == 0x80) && ltb field.array_size count
      then return_error array_max_size_exceeded
      else if leb (ltype field.type) 4
      then encode_tag wt_string field.tag
        >> packed_from (array_loop func count field.data_size p) (packed_size func field p count)
      else array_loop (encode_entry func field) count field.data_size p

  unfoldable pub encode_callback_field : Field → ℕ → Encoder
  encode_callback_field field p =
      let func = pointer_at c.mem p in
      if func == 0 then done else λ s.
      let (ok, s') = c.callback func field (callback_arg p) s in
      if ok then (true, s') else return_error callback_error s'

  -- The fields that encode by themselves, `message` being the encoder of submessages, and `fuel` the
  -- bound of nested checks for default values and of chained extensions.
  module _ (message : ℕ → ℕ → Encoder) (fuel : ℕ) where
    -- `pb_enc_submessage`
    unfoldable pub enc_submessage : Field → ℕ → Encoder
    enc_submessage field src =
        if field.ptr == 0
        then return_error invalid_field_descriptor
        else encode_submessage (message field.ptr src)

    -- `PB_ENCODERS[PB_LTYPE(field->type)]`; there is none for extensions, nor beyond the table.
    unfoldable pub encoder_of : Field → ℕ → Encoder
    unfolding enc_submessage
    encoder_of field src =
        let t = ltype field.type in
        if t == 0
        then enc_varint field (load c.mem field.data_size src)
        else if t == 1
        then enc_uvarint field (load c.mem field.data_size src)
        else if t == 2
        then enc_svarint field (load c.mem field.data_size src)
        else if t == 3
        then encode_fixed32 (load c.mem 4 src)
        else if t == 4
        then encode_fixed64 (load c.mem 8 src)
        else if t == 5
        then enc_bytes c.mem field src
        else if t == 6
        then enc_string c.mem field src
        else if t == 7
        then enc_submessage field src
        else if t == 9
        then enc_fixed_length_bytes c.mem field src
        else stuck

    -- `pb_encode_tag_for_field` and `func`.
    abbrev pub tagged : Field → ℕ → Encoder
    tagged field src = encode_tag_for_field field >> encoder_of field src

    unfoldable pub encode_basic_field : Field → ℕ → Encoder
    unfolding encoder_of encode_array
    encode_basic_field field p =
        let src = data_of c.mem field p in
        if htype field.type == 0x00
        then (if src == 0 then return_error missing_required_field else tagged field src)
        else if htype field.type == 0x10
        then (if has_field c.mem c.fields fuel field p then tagged field src else done)
        else if htype field.type == 0x20
        then encode_array (encoder_of field) field src (count_of c.mem field p)
        else if which_field c.mem c.fields fuel field p == field.tag
        then tagged field src
        else done

    unfoldable pub encode_field : Field → ℕ → Encoder
    unfolding encode_basic_field encode_callback_field
    encode_field field p =
        if (atype field.type == 0x00) || (atype field.type == 0x80)
        then encode_basic_field field p
        else if atype field.type == 0x40
        then encode_callback_field field p
        else return_error invalid_field_type

    -- The field of an extension stands at its type's `arg`.
    unfoldable pub default_extension_encoder : ℕ → Encoder
    unfolding encode_field
    default_extension_encoder extension =
        let field =
          field_at (c.fields (pointer_at c.mem (type_arg (pointer_at c.mem extension)))) 0 in
        if atype field.type == 0x80
        then encode_field field (extension_dest extension)
        else encode_field field (pointer_at c.mem (extension_dest extension))

    abbrev pub encode_extension : ℕ → Encoder
    encode_extension extension =
        let func = pointer_at c.mem (type_encode (pointer_at c.mem extension)) in
        if func == 0 then default_extension_encoder extension else c.extension func extension

    -- `while (extension)` of `encode_extension_field`.
    unfoldable pub extension_loop : ℕ → ℕ → Encoder
    unfolding default_extension_encoder
    extension_loop zero extension = stuck
    extension_loop (suc rounds) extension = elim (extension == 0) [
      | true ↦ done
      | false ↦
          encode_extension extension
          >> extension_loop rounds (pointer_at c.mem (extension_next extension))
    ]

    -- One round of `pb_encode`.
    unfoldable pub encode_at : Field → ℕ → Encoder
    unfolding extension_loop encode_field
    encode_at field p =
        if ltype field.type == 8
        then extension_loop fuel (pointer_at c.mem p)
        else encode_field field p

    -- Its do-while loop, which has a round for each field.
    unfoldable pub fields_loop : ℕ → FieldIter → Encoder
    unfolding encode_at
    fields_loop zero it = stuck
    fields_loop (suc rounds) it =
        encode_at (field_at it.start it.pos) it.p_data
        >> (let (more, it') = iter_next it in
            elim more [ true ↦ fields_loop rounds it' | false ↦ done ])

  -- `pb_encode(stream, fields, src_struct)`; `fuel` bounds the nesting of messages.
  unfoldable pub encode : ℕ → ℕ → ℕ → Encoder
  unfolding fields_loop
  encode zero fields src_struct = stuck
  encode (suc fuel) fields src_struct =
      let (some_field, it) = iter_begin (c.fields fields) src_struct in
      if some_field
      then fields_loop (encode fuel) fuel (suc (length (c.fields fields))) it
      else done

  unfoldable pub encode_delimited : ℕ → ℕ → ℕ → Encoder
  unfolding encode
  encode_delimited fuel fields src_struct = encode_submessage (encode fuel fields src_struct)

  unfoldable pub encode_nullterminated : ℕ → ℕ → ℕ → Encoder
  unfolding encode
  encode_nullterminated fuel fields src_struct =
      encode fuel fields src_struct >> λ s. write s (0 ∷ []) 1

  unfoldable pub get_encoded_size : ℕ → ℕ → ℕ → Option ℕ
  unfolding encode
  get_encoded_size fuel fields src_struct =
      let (sized, stream) = encode fuel fields src_struct ostream_sizing in
      if sized then some stream.bytes_written else none
