-- ===== src/Nanopb/Message/Format.antt =====
-- The bytes of a message, told from its descriptor and its C structure alone, with no stream: the
-- wire format that `pb_encode` writes.
use league_ranker.Prelude.{
  ℕ, zero, suc, true, false, not, ◌&&◌, ◌||◌, Option, none, some, List, [], ltb, leb, ◌==◌,
  if◌then◌else◌, length,
}
use league_ranker.Nanopb.Types.{wt_varint, wt_64bit, wt_string, wt_32bit}
use league_ranker.Nanopb.Encode.Varint.{varint}
use league_ranker.Nanopb.Iter.{Field, atype, htype, ltype, field_at}
use league_ranker.Nanopb.Store.{
  Mem, offset, load, pointer_at, size_at, bytes_at, array_bytes, bytes_array_allocsize,
  callback_arg, extension_dest, extension_next, type_encode, type_arg,
}
use league_ranker.Nanopb.Message.Contents.{
  address, value_at, is_there, is_unset, is_chosen, items_of, text, text_of, signed_pattern,
  unsigned_pattern, alternating,
}
use league_ranker.Nanopb.Message.Outcome.{Outcome, written, failed, ◌then◌, tag_bytes, delimited}
use league_ranker.Nanopb.Message.Submessage.{submessage_outcome}

-- What the user's functions come to.
pub record Users : Type 0 where
  pub callback : ℕ → Field → ℕ → Outcome
  pub extension : ℕ → ℕ → Outcome

-- `wire_type` of the format by the type of the field.
unfoldable pub tag_outcome : Field → Outcome
tag_outcome field =
    let t = ltype field.type in
    if (t == 0) || ((t == 1) || (t == 2))
    then written (tag_bytes wt_varint field.tag)
    else if t == 3
    then written (tag_bytes wt_32bit field.tag)
    else if t == 4
    then written (tag_bytes wt_64bit field.tag)
    else if (t == 5) || ((t == 6) || ((t == 7) || (t == 9)))
    then written (tag_bytes wt_string field.tag)
    else failed

-- An integer that is there is a varint.
abbrev pub number_outcome : (ℕ → ℕ) → Option ℕ → Outcome
number_outcome form none = failed
number_outcome form (some v) = written (varint 9 (form v))

unfoldable pub bytes_outcome : Mem → Field → ℕ → Outcome
bytes_outcome mem field src =
    if src == 0
    then written (delimited [])
    else if (atype field.type == 0x00)
        && ltb field.data_size (bytes_array_allocsize (size_at mem src))
    then failed
    else written (delimited (bytes_at mem (size_at mem src) (array_bytes src)))

-- The elements of an array, one behind the other.
unfoldable pub items_outcome : (ℕ → Outcome) → ℕ → ℕ → ℕ → Outcome
items_outcome item zero data_size p = written []
items_outcome item (suc count) data_size p =
    item p then items_outcome item count data_size (offset p data_size)

module _ (mem : Mem) (fields : ℕ → List Field) (users : Users) where
  abbrev pub entry_outcome : (ℕ → Outcome) → Field → ℕ → Outcome
  entry_outcome value field p =
      tag_outcome field
      then value (
          if (atype field.type == 0x80) && ((ltype field.type == 6) || (ltype field.type == 5))
          then pointer_at mem p
          else p)

  -- Numbers are packed behind one tag; other elements have a tag each.
  unfoldable pub array_outcome : (ℕ → Outcome) → Field → ℕ → ℕ → Outcome
  unfolding items_outcome
  array_outcome value field p count =
      if count == 0
      then written []
      else if not (atype field.type == 0x80) && ltb field.array_size count
      then failed
      else if leb (ltype field.type) 4
      then written (tag_bytes wt_string field.tag)
      then submessage_outcome (items_outcome value count field.data_size p)
      else items_outcome (entry_outcome value field) count field.data_size p

  abbrev pub callback_outcome : Field → ℕ → Outcome
  callback_outcome field p =
      let func = pointer_at mem p in
      if func == 0 then written [] else users.callback func field (callback_arg p)

  module _ (message : ℕ → ℕ → Outcome) (fuel : ℕ) where
    unfoldable pub value_outcome : Field → ℕ → Outcome
    unfolding bytes_outcome text
    value_outcome field src =
        let t = ltype field.type in
        if t == 0
        then number_outcome (λ v. v) (signed_pattern field.data_size (load mem field.data_size src))
        else if t == 1
        then number_outcome (λ v. v)
            (unsigned_pattern field.data_size (load mem field.data_size src))
        else if t == 2
        then number_outcome alternating
            (signed_pattern field.data_size (load mem field.data_size src))
        else if t == 3
        then written (bytes_at mem 4 src)
        else if t == 4
        then written (bytes_at mem 8 src)
        else if t == 5
        then bytes_outcome mem field src
        else if t == 6
        then written (delimited (text_of mem field src))
        else if t == 7
        then (if field.ptr == 0 then failed else submessage_outcome (message field.ptr src))
        else if t == 9
        then written (delimited (bytes_at mem field.data_size src))
        else failed

    abbrev pub tagged_outcome : Field → ℕ → Outcome
    tagged_outcome field src = tag_outcome field then value_outcome field src

    unfoldable pub basic_outcome : Field → ℕ → Outcome
    unfolding value_outcome array_outcome tag_outcome is_unset
    basic_outcome field p =
        let src = value_at mem field p in
        if htype field.type == 0x00
        then (if src == 0 then failed else tagged_outcome field src)
        else if htype field.type == 0x10
        then (if is_there mem fields fuel field p then tagged_outcome field src else written [])
        else if htype field.type == 0x20
        then array_outcome (value_outcome field) field src (items_of mem field p)
        else if is_chosen mem fields fuel field p
        then tagged_outcome field src
        else written []

    unfoldable pub field_outcome : Field → ℕ → Outcome
    unfolding basic_outcome
    field_outcome field p =
        if (atype field.type == 0x00) || (atype field.type == 0x80)
        then basic_outcome field p
        else if atype field.type == 0x40
        then callback_outcome field p
        else failed

    abbrev pub extension_outcome : ℕ → Outcome
    extension_outcome extension =
        let type_p = pointer_at mem extension in
        let func = pointer_at mem (type_encode type_p) in
        let field = field_at (fields (pointer_at mem (type_arg type_p))) 0 in
        if func == 0
        then (if atype field.type == 0x80
            then field_outcome field (extension_dest extension)
            else field_outcome field (pointer_at mem (extension_dest extension)))
        else users.extension func extension

    unfoldable pub chain_outcome : ℕ → ℕ → Outcome
    unfolding field_outcome
    chain_outcome zero extension = failed
    chain_outcome (suc rounds) extension = elim (extension == 0) [
      | true ↦ written []
      | false ↦
          extension_outcome extension
          then chain_outcome rounds (pointer_at mem (extension_next extension))
    ]

    abbrev pub outcome_at : Field → ℕ → Outcome
    outcome_at field p =
        if ltype field.type == 8
        then chain_outcome fuel (pointer_at mem p)
        else field_outcome field p

    -- The `n` fields from the field `i` on of the structure at `src`.
    unfoldable pub fields_outcome : List Field → ℕ → ℕ → ℕ → Outcome
    unfolding chain_outcome field_outcome address
    fields_outcome fs src zero i = written []
    fields_outcome fs src (suc n) i =
        outcome_at (field_at fs i) (address fs src i) then fields_outcome fs src n (suc i)

  unfoldable pub message_outcome : ℕ → ℕ → ℕ → Outcome
  unfolding fields_outcome
  message_outcome zero ptr src = failed
  message_outcome (suc fuel) ptr src =
      fields_outcome (message_outcome fuel) fuel (fields ptr) src (length (fields ptr)) 0
