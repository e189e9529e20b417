-- ===== src/Nanopb/Message/Default.antt =====
-- ScoreSender/Pods/nanopb/pb_encode.c: `pb_check_proto3_default_value`, by which a proto3 field that
-- has no flag of its own is left out.
use league_ranker.Prelude.{
  ℕ, zero, suc, Bool, true, false, not, ◌||◌, List, ◌==◌, if◌then◌else◌, length,
}
use league_ranker.Nanopb.Iter.{
  Field, FieldIter, atype, htype, ltype, field_at, iter_begin, iter_next,
}
use league_ranker.Nanopb.Store.{Mem, offset, size_at, is_false, all_zero}

-- The do-while loop over the fields of a submessage.
unfoldable pub all_default : (Field → ℕ → Bool) → ℕ → FieldIter → Bool
all_default check zero it = true
all_default check (suc rounds) it = elim (check (field_at it.start it.pos) it.p_data) [
  | true ↦
      let (more, it') = iter_next it in
      elim more [ true ↦ all_default check rounds it' | false ↦ true ]
  | false ↦ false
]

abbrev pub default_message : (Field → ℕ → Bool) → List Field → ℕ → Bool
default_message check fields p =
    let (some_field, it) = iter_begin fields p in
    if some_field then all_default check (suc (length fields)) it else true

-- A static field of the types that are not compared byte by byte.
unfoldable pub default_static : (Field → ℕ → Bool) → Mem → (ℕ → List Field) → Field → ℕ → Bool
unfolding all_default
default_static check mem fields field p =
    let t = ltype field.type in
    if t == 5
    then size_at mem p == 0
    else if t == 6
    then mem p == 0
    else if t == 9
    then field.data_size == 0
    else if t == 7
    then default_message check (fields field.ptr) p
    else all_zero mem field.data_size p

-- `fuel` bounds the nesting of submessages.
unfoldable pub default_value : Mem → (ℕ → List Field) → ℕ → Field → ℕ → Bool
unfolding default_static
default_value mem fields zero field p = false
default_value mem fields (suc fuel) field p =
    let at_size = offset p field.size_offset in
    if htype field.type == 0x00
    then false
    else if (htype field.type == 0x20) || (htype field.type == 0x30)
    then size_at mem at_size == 0
    else if not (field.size_offset == 0)
    then is_false mem at_size
    else if atype field.type == 0x00
    then default_static (default_value mem fields fuel) mem fields field p
    else all_zero mem field.data_size p
