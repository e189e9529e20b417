-- ===== src/Nanopb/Parse/Arrays.antt =====
-- The counts of repeated fields as the decoder keeps them.
use league_ranker.Prelude.{
  ℕ, ◌+◌, ◌-◌, ◌*◌, ◌%◌, ◌^◌, ◌≤◌, ◌<◌, ◌≡◌, ◌∙◌, refl, ap, none, Bool, true, false, if◌then◌else◌,
  arith, ◌==◌, ◌&&◌, leb,
}
use league_ranker.Nanopb.Types.{keep_first, array_overflow, realloc_failed}
use league_ranker.Nanopb.Istream.{Istream}
use league_ranker.Nanopb.Iter.{FieldIter, htype, ltype}
use league_ranker.Nanopb.Store.{size_at, pointer_at}
use league_ranker.Nanopb.World.{
  World, Libc, Run, ◌>>=◌, look, change, return_error, allocate_field, multiply_overflows,
}
use league_ranker.Nanopb.World.Frame.{load-store}
use league_ranker.Nanopb.Parse.Defaults.{field_of}
use league_ranker.Nanopb.Parse.Fields.{
  Target, increment, static_item, pointer_next, pointer_item, decode_pointer_field,
}

incremented :
    (p_size : ℕ) (w : World)
    → size_at w.mem p_size < 2 ^ 32 - 1
    → size_at (increment p_size w).mem p_size ≡ size_at w.mem p_size + 1
incremented p_size w h =
    load-store 4 ((size_at w.mem p_size + 1) % 2 ^ 32) p_size w (omega arith) ∙ omega arith

no_memory :
    (libc : Libc) (p_data data_size array_size : ℕ) (s : Istream) (w : World)
    → ((p n : ℕ) (w : World) → libc.realloc p n w ≡ (0, w))
    → 0 < data_size
    → data_size < 2 ^ 32
    → 0 < array_size
    → array_size < 2 ^ 32
    → allocate_field libc p_data data_size array_size s w ≡ return_error realloc_failed s w
unfolding allocate_field multiply_overflows
no_memory libc p_data data_size array_size s w none_left some_data small some_items few =
    ground (arith, none_left (pointer_at w.mem p_data) (array_size * data_size % 2 ^ 64) w)

-- A function that fails ends what comes after it.
>>=-none :
    {A B : Type 0} (m : Run A) (k : A → Run B) (s : Istream) (w : World) {t : Istream} {w' : World}
    → m s w ≡ (none, t, w')
    → (m >>= k) s w ≡ (none, t, w')
unfolding ◌>>=◌
>>=-none m k s w e = rw (e, ◌>>=◌, e)

middle :
    {A : Type 0} (b b' : Bool) (x y z : A)
    → b ≡ true
    → b' ≡ false
    → (if b then (if b' then x else y) else z) ≡ y
middle b b' x y z h h' = rw (h, h') refl

not_full : (n m : ℕ) → n < m → (n == m) ≡ false
not_full n m h = ground arith

-- The same item by item, behind the tests of the type and the wire type.
next_item_counted :
    (c : Target) (decode noinit : ℕ → ℕ → Run (Unit {0})) (fuel : ℕ) (it : FieldIter) (s : Istream)
    (w : World)
    → ((p n : ℕ) (w : World) → c.libc.realloc p n w ≡ (0, w))
    → 0 < (field_of it).data_size
    → (field_of it).data_size < 2 ^ 32
    → size_at w.mem it.p_size < 2 ^ 32 - 1
    → pointer_next c decode noinit fuel it s w
      ≡ return_error realloc_failed s (increment it.p_size w)
unfolding pointer_next ◌>>=◌ look change return_error
next_item_counted c decode noinit fuel it s w none_left some_data small room =
    let size = size_at w.mem it.p_size in
    let data_size = (field_of it).data_size in
    let failed =
      no_memory c.libc it.p_data data_size (size + 1) s (increment it.p_size w) none_left some_data
        small (omega arith) (omega arith) in
    rw (not_full size (2 ^ 32 - 1) room) (
      >>=-none (allocate_field c.libc it.p_data data_size (size + 1))
        (λ _. pointer_item c decode noinit fuel it size) s (increment it.p_size w) failed)

-- Where realloc fails, decode_pointer_field fails on an item of a repeated field that is not a packed
-- array (its wire type is not that of a string, or its type is none that is packed), if the field's
-- items have a size and it has fewer than 2 ^ 32 - 1 of them: the error is "realloc failed" unless the
-- stream had one before, and the count of the field is one more than before, although no item was
-- allocated.
pub failed_item_counted :
    (c : Target) (decode noinit : ℕ → ℕ → Run (Unit {0})) (fuel wire_type : ℕ) (it : FieldIter)
    (s : Istream) (w : World)
    → ((p n : ℕ) (w : World) → c.libc.realloc p n w ≡ (0, w))
    → htype (field_of it).type ≡ 0x20
    → ((wire_type == 2) && leb (ltype (field_of it).type) 4) ≡ false
    → 0 < (field_of it).data_size
    → (field_of it).data_size < 2 ^ 32
    → size_at w.mem it.p_size < 2 ^ 32 - 1
    → let (status, s', w') = decode_pointer_field c decode noinit fuel wire_type it s w in
      (status ≡ none)
      × (s'.errmsg ≡ keep_first s.errmsg realloc_failed)
      × (size_at w'.mem it.p_size ≡ size_at w.mem it.p_size + 1)
unfolding decode_pointer_field return_error
failed_item_counted c decode noinit fuel wire_type it s w none_left repeated single some_data small
      room =
    let stops : decode_pointer_field c decode noinit fuel wire_type it s w
        ≡ return_error realloc_failed s (increment it.p_size w) =
      ap (λ (m : Run (Unit {0})). m s w)
        (middle (htype (field_of it).type == 0x20) _ _ (pointer_next c decode noinit fuel it) _
          (rw repeated refl) single)
      ∙ next_item_counted c decode noinit fuel it s w none_left some_data small room in
    rw stops (refl, refl, incremented it.p_size w room)

-- A repeated field in a static array of which all places are taken is "array overflow", and the item
-- is not decoded; the count goes up all the same.
pub full_array_refused :
    (func : ℕ → Run (Unit {0})) (it : FieldIter) (s : Istream) (w : World)
    → (field_of it).array_size ≤ size_at w.mem it.p_size
    → static_item func it s w
      ≡ (none, record s { errmsg = keep_first s.errmsg array_overflow }, increment it.p_size w)
unfolding static_item ◌>>=◌ look change return_error
full_array_refused func it s w full = ground (arith, full)
