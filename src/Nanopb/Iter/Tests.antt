-- ===== src/Nanopb/Iter/Tests.antt =====
-- The field iterator over a message of three fields, and its theorems there.
use league_ranker.Prelude.{
  ℕ, zero, suc, ◌-◌, ◌^◌, ◌≡◌, ◌<◌, ◌⊎◌, refl, true, false, List, [], ◌∷◌, arith,
}
use league_ranker.Nanopb.Iter.{
  Field, field_at, iter_begin, iter_next, step_size, matches, find_loop, iter_find,
}
use league_ranker.Nanopb.Iter.Walk.{IsFields, walk}
use league_ranker.Nanopb.Iter.Find.{find_exact}

abbrev field : ℕ → ℕ → ℕ → ℕ → Field
field tag type data_offset array_size = record {
  tag = tag;
  type = type;
  data_offset = data_offset;
  size_offset = 2 ^ 64 - 4;
  data_size = 4;
  array_size = array_size;
  ptr = 0;
}

-- A required number, an array of five numbers with its count, and a pointer.
abbrev three_fields : List Field
three_fields = field 1 0x01 0 0 ∷ field 3 0x21 4 5 ∷ field 7 0x91 4 0 ∷ []

three_fields-IsFields : IsFields three_fields
three_fields-IsFields zero h = omega arith
three_fields-IsFields (suc zero) h = omega arith
three_fields-IsFields (suc (suc zero)) h = omega arith
three_fields-IsFields (suc (suc (suc i))) h = absurd (omega arith)

-- The third field is behind the number, the count and the array.
third_place : (walk three_fields 1000 2).p_data ≡ 1032
unfolding walk iter_begin iter_next step_size
third_place = refl

found_behind : (iter_find (walk three_fields 1000 1) 1).1.pos ≡ 0
unfolding walk iter_begin iter_next step_size find_loop iter_find
found_behind = refl

find_exact_example :
    ((k : ℕ) × (k < 3)
      × (matches 7 (field_at three_fields k) ≡ true)
      × (iter_find (walk three_fields 1000 1) 7 ≡ (true, walk three_fields 1000 k)))
    ⊎ ((iter_find (walk three_fields 1000 1) 7 ≡ (false, walk three_fields 1000 1))
        × ((k : ℕ) → k < 3 → matches 7 (field_at three_fields k) ≡ false))
find_exact_example = find_exact three_fields 1000 7 1 three_fields-IsFields (omega arith)
