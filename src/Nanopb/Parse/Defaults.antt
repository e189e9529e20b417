-- ===== src/Nanopb/Parse/Defaults.antt =====
-- ScoreSender/Pods/nanopb/pb_decode.c: pb_field_set_to_default and pb_message_set_to_defaults, and the
-- walk over all fields that pb_release shares with them.
use league_ranker.Prelude.{
  ℕ, zero, suc, true, false, not, ◌&&◌, ◌||◌, List, ◌==◌, if◌then◌else◌, length,
}
use league_ranker.Nanopb.Iter.{
  Field, FieldIter, atype, htype, ltype, field_at, iter_begin, iter_next,
}
use league_ranker.Nanopb.Store.{
  Mem, pointer_at, type_arg, extension_dest, extension_next, extension_found,
}
use league_ranker.Nanopb.World.{World, clear, memcpy, set_size, set_pointer, set_bool}

-- The do-while loop over the fields of a message.
unfoldable pub each_field : (FieldIter → World → World) → ℕ → FieldIter → World → World
each_field step zero it w = w
each_field step (suc rounds) it w =
    let (more, it') = iter_next it in
    elim more [ true ↦ each_field step rounds it' (step it w) | false ↦ step it w ]

-- `iter.pos`
abbrev pub field_of : FieldIter → Field
field_of it = field_at it.start it.pos

module _ (fields : ℕ → List Field) where
  unfoldable pub each_of : (FieldIter → World → World) → ℕ → ℕ → World → World
  unfolding each_field
  each_of step ptr dest w =
      let (some_field, it) = iter_begin (fields ptr) dest in
      if some_field then each_field step (suc (length (fields ptr))) it w else w

  unfoldable pub iter_from_extension : Mem → ℕ → FieldIter
  iter_from_extension mem extension =
      let dest = pointer_at mem (extension_dest extension) in
      let (_, it) =
        iter_begin (fields (pointer_at mem (type_arg (pointer_at mem extension)))) dest in
      record it {
        p_data = if atype (field_of it).type == 0x80 then extension_dest extension else dest;
        p_size = extension_found extension;
      }

  -- `while (ext != NULL)`
  unfoldable pub default_extensions : (FieldIter → World → World) → ℕ → ℕ → World → World
  unfolding iter_from_extension
  default_extensions step zero extension w = w
  default_extensions step (suc rounds) extension w = elim (extension == 0) [
    | true ↦ w
    | false ↦
        let w₁ = set_bool false (extension_found extension) w in
        let w₂ = step (iter_from_extension w₁.mem extension) w₁ in
        default_extensions step rounds (pointer_at w₂.mem (extension_next extension)) w₂
  ]

  -- `if (init_data)`
  unfoldable pub init_data : (FieldIter → World → World) → FieldIter → World → World
  unfolding each_of
  init_data step it w =
      let field = field_of it in
      if ltype field.type == 7
      then each_of step field.ptr it.p_data w
      else if not (field.ptr == 0)
      then memcpy field.data_size it.p_data field.ptr w
      else clear field.data_size it.p_data w

  -- `fuel` bounds the nesting of messages and the chains of extensions.
  unfoldable pub field_set_to_default : ℕ → FieldIter → World → World
  unfolding default_extensions init_data
  field_set_to_default zero it w = w
  field_set_to_default (suc fuel) it w =
      let type = (field_of it).type in
      if ltype type == 8
      then default_extensions (field_set_to_default fuel) fuel (pointer_at w.mem it.p_data) w
      else if atype type == 0x00
      then (if (htype type == 0x10) && not (it.p_size == it.p_data)
          then init_data (field_set_to_default fuel) it (set_bool false it.p_size w)
          else if (htype type == 0x20) || (htype type == 0x30)
          then set_size 0 it.p_size w
          else init_data (field_set_to_default fuel) it w)
      else if atype type == 0x80
      then (if (htype type == 0x20) || (htype type == 0x30)
          then set_size 0 it.p_size (set_pointer 0 it.p_data w)
          else set_pointer 0 it.p_data w)
      else w

  unfoldable pub message_set_to_defaults : ℕ → ℕ → ℕ → World → World
  unfolding each_of field_set_to_default
  message_set_to_defaults fuel ptr dest = each_of (field_set_to_default fuel) ptr dest
