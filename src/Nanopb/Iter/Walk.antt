-- ===== src/Nanopb/Iter/Walk.antt =====
-- The rounds of the field iterator over an array of fields.
use native.Mathlib.Decide.{dec_le}
use league_ranker.Prelude.{
  ◌⊎◌, inl, inr, ℕ, zero, suc, ◌≡◌, ◌<◌, refl, ap, true, false, List, [], ◌∷◌, length, arith, not,
  ◌==◌,
}
use league_ranker.Nanopb.Iter.{Field, FieldIter, last_field, field_at, iter_begin, iter_next}

-- No field before the end mark has the tag 0.
abbrev pub IsFields : List Field → Type 0
IsFields fields = (i : ℕ) → i < length fields → 0 < (field_at fields i).tag

-- The iterator after `i` steps.
unfoldable pub walk : List Field → ℕ → ℕ → FieldIter
walk fields dest zero = (iter_begin fields dest).1
walk fields dest (suc i) = (iter_next (walk fields dest i)).1

end_mark : (fields : List Field) → field_at fields (length fields) ≡ last_field
end_mark [] = refl
end_mark (f ∷ fields) = end_mark fields

-- Where an iterator stands, and over what.
pub record Stands (fields : List Field) (dest i : ℕ) (it : FieldIter) : Type 0 where
  pub over : it.start ≡ fields
  pub into : it.dest_struct ≡ dest
  pub place : it.pos ≡ i

iter_next-Stands :
    (fields : List Field) (dest i : ℕ) (it : FieldIter)
    → IsFields fields
    → suc i < length fields
    → Stands fields dest i it
    → Stands fields dest (suc i) (iter_next it).1
unfolding iter_next
iter_next-Stands fields dest i it v h s =
    let here = v i (omega arith) in
    let there = v (suc i) h in
    record {
      over = ground (arith, here, there, s.over, s.place);
      into = ground (arith, here, there, s.over, s.place, s.into);
      place = ground (arith, here, there, s.over, s.place);
    }

pub walk-Stands :
    (fields : List Field) (dest i : ℕ)
    → IsFields fields
    → i < length fields
    → Stands fields dest i (walk fields dest i)
unfolding walk iter_begin
walk-Stands fields dest zero v h = record { over = refl; into = refl; place = refl }
walk-Stands fields dest (suc i) v h =
    iter_next-Stands fields dest i (walk fields dest i) v h
      (walk-Stands fields dest i v (omega arith))

-- Behind the last field the iterator is where it began.
pub iter_next-last :
    (fields : List Field) (dest i : ℕ)
    → IsFields fields
    → suc i ≡ length fields
    → iter_next (walk fields dest i) ≡ (false, walk fields dest 0)
unfolding walk iter_next
iter_next-last fields dest i v h =
    let s = walk-Stands fields dest i v (omega arith) in
    ground (arith, v i (omega arith), s.over, s.place, s.into, end_mark fields)

-- On a message with fields, `pb_field_iter_next` goes to the next field and gives true, and behind
-- the last one it goes back to the first and gives false.
pub next_wraps :
    (fields : List Field) (dest i : ℕ)
    → IsFields fields
    → i < length fields
    → let (more, it) = iter_next (walk fields dest i) in
      ((suc i < length fields) × (more ≡ true) × (it.pos ≡ suc i))
      ⊎ ((suc i ≡ length fields) × (more ≡ false) × (it ≡ (iter_begin fields dest).1))
unfolding iter_next walk
next_wraps fields dest i v h =
    let s = walk-Stands fields dest i v h in
    elim (dec_le (suc (suc i)) (length fields)) [
      | yes inner ↦
          let more : (iter_next (walk fields dest i)).0 ≡ true =
            ground (arith, v i h, v (suc i) inner, s.over, s.place) in
          inl (inner, more, (iter_next-Stands fields dest i (walk fields dest i) v inner s).place)
      | no outer ↦
          let last = iter_next-last fields dest i v (omega arith) in
          inr (omega arith, ap (λ r. r.0) last, ap (λ r. r.1) last)
    ]

-- `pb_field_iter_begin` gives false on a message without fields.
pub begins :
    (fs : List Field) (src : ℕ) → IsFields fs → (iter_begin fs src).0 ≡ not (length fs == 0)
unfolding iter_begin
begins [] src v = refl
begins (f ∷ fs) src v = ground (arith, v 0 (omega arith))
