-- ===== src/Nanopb/Parse/Release.antt =====
-- ScoreSender/Pods/nanopb/pb_decode.c: pb_release and the functions under it.
use league_ranker.Prelude.{
  ℕ, zero, suc, true, false, not, ◌&&◌, ◌||◌, List, ltb, ◌==◌, if◌then◌else◌,
}
use league_ranker.Nanopb.Types.{invalid_union_tag, iterator_error}
use league_ranker.Nanopb.Iter.{Field, FieldIter, atype, htype, ltype, iter_find}
use league_ranker.Nanopb.Store.{Mem, offset, pointer_at, size_at, extension_next}
use league_ranker.Nanopb.World.{
  World, Libc, Run, ◌>>=◌, pure, return_error, look, change, set_size, set_pointer,
}
use league_ranker.Nanopb.Parse.Defaults.{each_of, field_of, iter_from_extension}

-- How many submessages a field holds; a count field beyond a static array is not believed.
unfoldable pub release_count : Mem → FieldIter → ℕ
release_count mem it =
    let field = field_of it in
    if htype field.type == 0x20
    then (if atype field.type == 0x00
        then (if it.p_size == it.p_data
            then field.array_size
            else if ltb field.array_size (size_at mem it.p_size)
            then field.array_size
            else size_at mem it.p_size)
        else size_at mem it.p_size)
    else 1

-- `while (count--)` over submessages, and over the entries of an array of strings or bytes.
unfoldable pub release_items : (ℕ → ℕ → World → World) → Field → ℕ → ℕ → World → World
release_items release field zero item w = w
release_items release field (suc count) item w =
    release_items release field count (offset item field.data_size) (release field.ptr item w)

unfoldable pub free_entries : Libc → ℕ → ℕ → World → World
free_entries libc zero item w = w
free_entries libc (suc count) item w =
    free_entries libc count (offset item 8)
      (set_pointer 0 item (libc.free (pointer_at w.mem item) w))

unfoldable pub release_submessages : (ℕ → ℕ → World → World) → FieldIter → World → World
unfolding release_items release_count
release_submessages release it w =
    let field = field_of it in
    let item = if atype field.type == 0x80 then pointer_at w.mem it.p_data else it.p_data in
    if item == 0 then w else release_items release field (release_count w.mem it) item w

-- `Release main item`, and what comes before it in a pointer field.
unfoldable pub release_pointer : Libc → FieldIter → World → World
unfolding free_entries
release_pointer libc it w =
    let type = (field_of it).type in
    let w₁ =
      if (htype type == 0x20) && ((ltype type == 6) || (ltype type == 5))
      then free_entries libc (size_at w.mem it.p_size) (pointer_at w.mem it.p_data) w
      else w in
    let w₂ = if htype type == 0x20 then set_size 0 it.p_size w₁ else w₁ in
    set_pointer 0 it.p_data (libc.free (pointer_at w₂.mem it.p_data) w₂)

module _ (libc : Libc) (fields : ℕ → List Field) where
  unfoldable pub release_extensions : (FieldIter → World → World) → ℕ → ℕ → World → World
  unfolding iter_from_extension
  release_extensions step zero extension w = w
  release_extensions step (suc rounds) extension w = elim (extension == 0) [
    | true ↦ w
    | false ↦
        let w' = step (iter_from_extension fields w.mem extension) w in
        release_extensions step rounds (pointer_at w'.mem (extension_next extension)) w'
  ]

  -- `pb_release`, over the function that releases a field.
  abbrev pub release_of : (FieldIter → World → World) → ℕ → ℕ → World → World
  release_of step ptr dest w = if dest == 0 then w else each_of fields step ptr dest w

  -- `fuel` bounds the nesting of messages and the chains of extensions.
  unfoldable pub release_single_field : ℕ → FieldIter → World → World
  unfolding release_extensions release_submessages release_pointer
  release_single_field zero it w = w
  release_single_field (suc fuel) it w =
      let field = field_of it in
      if (htype field.type == 0x30) && not (size_at w.mem it.p_size == field.tag)
      then w
      else let w' =
          if ltype field.type == 8
          then release_extensions (release_single_field fuel) fuel (pointer_at w.mem it.p_data) w
          else if ltype field.type == 7
          then release_submessages (release_of (release_single_field fuel)) it w
          else w in
        if atype field.type == 0x80 then release_pointer libc it w' else w'

  unfoldable pub release : ℕ → ℕ → ℕ → World → World
  unfolding release_single_field
  release fuel ptr dest = release_of (release_single_field fuel) ptr dest

  -- The iterator is moved to the old field and back.
  unfoldable pub release_union_field : ℕ → FieldIter → Run FieldIter
  unfolding release_single_field
  release_union_field fuel it = look (λ w. size_at w.mem it.p_size) >>= λ old_tag.
      let new_tag = (field_of it).tag in
      if (old_tag == 0) || (old_tag == new_tag)
      then pure it
      else (let (found, at_old) = iter_find it old_tag in
          if not found
          then return_error invalid_union_tag
          else (change (release_single_field fuel at_old) >>= λ _.
              let (back, at_new) = iter_find at_old new_tag in
              if back then pure at_new else return_error iterator_error))
