-- ===== src/Nanopb/Parse/Fields.antt =====
-- ScoreSender/Pods/nanopb/pb_decode.c: decode_field and the functions under it.
use league_ranker.Prelude.{
  ℕ, zero, suc, ◌+◌, ◌-◌, ◌*◌, ◌/◌, ◌%◌, ◌^◌, Bool, true, false, not, ◌&&◌, ◌||◌, Option, none,
  some, List, ltb, leb, ◌==◌, if◌then◌else◌, length,
}
use league_ranker.Nanopb.Types.{
  WireType, array_overflow, invalid_field_type, invalid_field_descriptor, too_many_array_entries,
  callback_failed,
}
use league_ranker.Nanopb.Istream.{Istream, istream_from_buffer}
use league_ranker.Nanopb.Decode.{skip_field}
use league_ranker.Nanopb.Substream.{make_string_substream, close_string_substream, read_raw_value}
use league_ranker.Nanopb.Iter.{Field, FieldIter, atype, htype, ltype}
use league_ranker.Nanopb.Store.{offset, pointer_at, size_at, callback_arg}
use league_ranker.Nanopb.World.{
  World, Libc, Run, ◌>>=◌, pure, fail, return_error, lift, look, change, set_size, set_pointer,
  set_bool, clear, allocate_field,
}
use league_ranker.Nanopb.Parse.Values.{
  dec_varint_to, dec_uvarint_to, dec_svarint_to, dec_fixed32, dec_fixed64, dec_bytes, dec_string,
  dec_fixed_length_bytes,
}
use league_ranker.Nanopb.Parse.Defaults.{field_of, message_set_to_defaults}
use league_ranker.Nanopb.Parse.Release.{release_single_field, release_union_field}

-- What the decoder calls: the C library, the array of fields at an address, and the user's functions
-- at an address, which decode a field with their `arg`, or an extension by its tag and wire type.
-- `counter` is where the local `fixed_count_size` of a call at some nesting is.
pub record Target : Type 0 where
  pub libc : Libc
  pub fields : ℕ → List Field
  pub callback : ℕ → Field → ℕ → Run (Unit {0})
  pub extension : ℕ → ℕ → ℕ → WireType → Run (Unit {0})
  pub counter : ℕ → ℕ

-- What is done on a substream, and its closing; the status is that of the former.
unfoldable pub inside : Run (Unit {0}) → Istream → Run (Unit {0})
inside m substream s w =
    let (status, sub, w') = m substream w in
    let (closed, s') = close_string_substream sub s in
    elim closed [ none ↦ (none, s', w') | some done ↦ (status, s', w') ]

-- `(*size)++`
abbrev pub increment : ℕ → World → World
increment p_size w = set_size ((size_at w.mem p_size + 1) % 2 ^ 32) p_size w

-- `data + field->data_size * index`, where the product has 32 bits.
abbrev pub item_at : Field → ℕ → ℕ → ℕ
item_at field p index = offset p (field.data_size * index % 2 ^ 32)

-- The loop over a packed array in a static field. Each round takes one of its places.
unfoldable pub static_items : (ℕ → Run (Unit {0})) → FieldIter → ℕ → Run (Unit {0})
static_items func it zero s w = (none, s, w)
static_items func it (suc rounds) s w =
    let size = size_at w.mem it.p_size in
    elim (ltb 0 s.bytes_left && ltb size (field_of it).array_size) [
      | true ↦
          (func (item_at (field_of it) it.p_data size) >>= λ _.
          change (increment it.p_size) >>= λ _. static_items func it rounds)
            s w
      | false ↦ (some tt, s, w)
    ]

unfoldable pub static_packed : (ℕ → Run (Unit {0})) → FieldIter → Istream → Run (Unit {0})
unfolding static_items
static_packed func it substream s w =
    let (status, sub, w') = static_items func it (suc (field_of it).array_size) substream w in
    if not (sub.bytes_left == 0)
    then return_error array_overflow s w'
    else let (closed, s') = close_string_substream sub s in
      elim closed [ none ↦ (none, s', w') | some done ↦ (status, s', w') ]

-- `Repeated field`
unfoldable pub static_item : (ℕ → Run (Unit {0})) → FieldIter → Run (Unit {0})
static_item func it = look (λ w. size_at w.mem it.p_size) >>= λ size.
    change (increment it.p_size) >>= λ _.
    if leb (field_of it).array_size size
    then return_error array_overflow
    else func (item_at (field_of it) it.p_data size)

-- The user's function over a length-delimited value, until all of it is read.
unfoldable pub callback_loop : Run (Unit {0}) → ℕ → Run (Unit {0})
callback_loop func zero = fail
callback_loop func (suc rounds) = func >>= λ _ s w. elim (s.bytes_left == 0) [
  | true ↦ (some tt, s, w)
  | false ↦ callback_loop func rounds s w
]

unfoldable pub callback_string : Run (Unit {0}) → Istream → Run (Unit {0})
unfolding callback_loop
callback_string func substream s w =
    let (status, sub, w') = callback_loop func (suc substream.bytes_left) substream w in
    elim status [
      | none ↦ return_error callback_failed s w'
      | some done ↦ let (closed, s') = close_string_substream sub s in (closed, s', w')
    ]

-- The user's function over a scalar, which is copied to a buffer of ten bytes.
abbrev pub callback_scalar : Run (Unit {0}) → WireType → Run (Unit {0})
callback_scalar func wire_type = lift (read_raw_value wire_type 10) >>= λ buffer s w.
    let (status, sub, w') = func (istream_from_buffer buffer (length buffer)) w in (status, s, w')

module _ (c : Target) where
  unfoldable pub decode_callback_field : WireType → FieldIter → Run (Unit {0})
  unfolding callback_string
  decode_callback_field wire_type it = look (λ w. pointer_at w.mem it.p_data) >>= λ decode.
      let func = c.callback decode (field_of it) (callback_arg it.p_data) in
      if (it.p_data == 0) || (decode == 0)
      then lift (skip_field wire_type)
      else if wire_type == 2
      then (lift make_string_substream >>= callback_string func)
      else callback_scalar func wire_type

  -- `initialize_pointer_field`
  unfoldable pub initialize_pointer_field : ℕ → FieldIter → ℕ → World → World
  initialize_pointer_field fuel it item w =
      let field = field_of it in
      if (ltype field.type == 6) || (ltype field.type == 5)
      then set_pointer 0 item w
      else if ltype field.type == 7
      then message_set_to_defaults c.fields fuel field.ptr item (clear field.data_size item w)
      else w

  -- `decode` and `noinit` are `pb_decode` and `pb_decode_noinit` on submessages.
  module _ (decode noinit : ℕ → ℕ → Run (Unit {0})) (fuel : ℕ) where
    unfoldable pub dec_submessage : Field → ℕ → Run (Unit {0})
    unfolding inside
    dec_submessage field dest = lift make_string_substream >>= λ substream.
        if field.ptr == 0
        then return_error invalid_field_descriptor
        else inside
            (if htype field.type == 0x20 then decode field.ptr dest else noinit field.ptr dest)
            substream

    -- `PB_DECODERS[PB_LTYPE(type)]`; there is none for extensions, nor beyond the table.
    unfoldable pub decoder_of : Field → ℕ → Run (Unit {0})
    unfolding dec_submessage
    decoder_of field dest =
        let t = ltype field.type in
        if t == 0
        then dec_varint_to field dest
        else if t == 1
        then dec_uvarint_to field dest
        else if t == 2
        then dec_svarint_to field dest
        else if t == 3
        then dec_fixed32 dest
        else if t == 4
        then dec_fixed64 dest
        else if t == 5
        then dec_bytes c.libc field dest
        else if t == 6
        then dec_string c.libc field dest
        else if t == 7
        then dec_submessage field dest
        else if t == 9
        then dec_fixed_length_bytes field dest
        else fail

    -- The message of a oneof field is set to its defaults.
    abbrev pub set_oneof : FieldIter → World → World
    set_oneof it w =
        let field = field_of it in
        let w' = set_size field.tag it.p_size w in
        if ltype field.type == 7
        then message_set_to_defaults c.fields fuel field.ptr it.p_data
            (clear field.data_size it.p_data w')
        else w'

    unfoldable pub decode_static_field : WireType → FieldIter → Run (Unit {0})
    unfolding decoder_of static_packed static_item
    decode_static_field wire_type it =
        let field = field_of it in
        let func = decoder_of field in
        if htype field.type == 0x00
        then func it.p_data
        else if htype field.type == 0x10
        then (if it.p_size == it.p_data
            then func it.p_data
            else (change (set_bool true it.p_size) >>= λ _. func it.p_data))
        else if htype field.type == 0x20
        then (if (wire_type == 2) && leb (ltype field.type) 4
            then (lift make_string_substream >>= static_packed func it)
            else static_item func it)
        else (change (set_oneof it) >>= λ _. func it.p_data)

    -- `Allocate more storage` where the next item has no room. It gives the new `allocated_size`.
    abbrev pub more_storage : FieldIter → ℕ → Run ℕ
    more_storage it allocated_size s w =
        let data_size = (field_of it).data_size in
        let next = (allocated_size + ((s.bytes_left - 1) / data_size + 1)) % 2 ^ 64 in
        if ltb allocated_size (size_at w.mem it.p_size + 1)
        then (allocate_field c.libc it.p_data data_size next >>= λ _. pure next) s w
        else (some allocated_size, s, w)

    -- An item at its place in the allocated array.
    abbrev pub pointer_item : FieldIter → ℕ → Run (Unit {0})
    pointer_item it index =
        look (λ w. item_at (field_of it) (pointer_at w.mem it.p_data) index) >>= λ item.
        change (initialize_pointer_field fuel it item) >>= λ _. decoder_of (field_of it) item

    -- The loop over a packed array in a pointer field; `some false` is "too many array entries". An
    -- item takes a byte of the substream at least.
    unfoldable pub pointer_items : FieldIter → ℕ → ℕ → Run Bool
    unfolding decoder_of initialize_pointer_field
    pointer_items it zero allocated_size s w = (none, s, w)
    pointer_items it (suc rounds) allocated_size s w = elim (s.bytes_left == 0) [
      | true ↦ (some true, s, w)
      | false ↦
          (more_storage it allocated_size >>= λ allocated.
          look (λ w. size_at w.mem it.p_size) >>= λ size. pointer_item it size >>= λ _ s w.
          elim (size_at w.mem it.p_size == 2 ^ 32 - 1) [
            | true ↦ (some false, s, w)
            | false ↦ pointer_items it rounds allocated s (increment it.p_size w)
          ])
            s w
    ]

    abbrev pub is_full : Option Bool → Bool
    is_full none = false
    is_full (some ok) = not ok

    abbrev pub all_decoded : Option Bool → Option (Unit {0})
    all_decoded none = none
    all_decoded (some ok) = if ok then some tt else none

    -- The error message of the full array is written over what the stream had before, and the
    -- closing of the substream writes over it in turn.
    unfoldable pub pointer_packed : FieldIter → Istream → Run (Unit {0})
    unfolding pointer_items
    pointer_packed it substream s w =
        let (status, sub, w') =
          pointer_items it (suc substream.bytes_left) (size_at w.mem it.p_size) substream w in
        let s₁ = if is_full status then record s { errmsg = some too_many_array_entries } else s in
        let (closed, s') = close_string_substream sub s₁ in
        elim closed [ none ↦ (none, s', w') | some done ↦ (all_decoded status, s', w') ]

    -- `Normal repeated field`
    unfoldable pub pointer_next : FieldIter → Run (Unit {0})
    unfolding decoder_of initialize_pointer_field
    pointer_next it = look (λ w. size_at w.mem it.p_size) >>= λ size.
        if size == 2 ^ 32 - 1
        then return_error too_many_array_entries
        else (change (increment it.p_size) >>= λ _.
            allocate_field c.libc it.p_data (field_of it).data_size (size + 1) >>= λ _.
            pointer_item it size)

    -- A required, optional or oneof field.
    unfoldable pub pointer_single : FieldIter → Run (Unit {0})
    unfolding decoder_of initialize_pointer_field
    pointer_single it =
        let field = field_of it in
        change (λ w.
          let w' =
            if (ltype field.type == 7) && not (pointer_at w.mem it.p_data == 0)
            then release_single_field c.libc c.fields fuel it w
            else w in
          if htype field.type == 0x30 then set_size field.tag it.p_size w' else w')
        >>= λ _.
            if (ltype field.type == 6) || (ltype field.type == 5)
            then decoder_of field it.p_data
            else (allocate_field c.libc it.p_data field.data_size 1 >>= λ _.
                look (λ w. pointer_at w.mem it.p_data) >>= λ item.
                change (initialize_pointer_field fuel it item) >>= λ _. decoder_of field item)

    unfoldable pub decode_pointer_field : WireType → FieldIter → Run (Unit {0})
    unfolding pointer_packed pointer_next pointer_single
    decode_pointer_field wire_type it =
        let field = field_of it in
        if htype field.type == 0x20
        then (if (wire_type == 2) && leb (ltype field.type) 4
            then (lift make_string_substream >>= pointer_packed it)
            else pointer_next it)
        else pointer_single it

    -- It gives the iterator, which the release of a oneof field moves and sets back.
    unfoldable pub decode_field : WireType → FieldIter → Run FieldIter
    unfolding decode_static_field decode_pointer_field decode_callback_field
    decode_field wire_type it₀ =
        (if htype (field_of it₀).type == 0x30
          then release_union_field c.libc c.fields fuel it₀
          else pure it₀)
        >>= λ it.
            (let type = (field_of it).type in
              if atype type == 0x00
              then decode_static_field wire_type it
              else if atype type == 0x80
              then decode_pointer_field wire_type it
              else if atype type == 0x40
              then decode_callback_field wire_type it
              else return_error invalid_field_type)
            >>= λ _. pure it
