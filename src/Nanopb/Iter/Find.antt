-- ===== src/Nanopb/Iter/Find.antt =====
-- `pb_field_iter_find`, from any field.
use native.Mathlib.Decide.{dec_le}
use league_ranker.Prelude.{
  ==_iff, ℕ, zero, suc, ◌+◌, ◌-◌, ◌≡◌, ◌≤◌, ◌<◌, ◌⊎◌, inl, inr, refl, ap, ap₂, ◌∙◌, Bool, true,
  false, List, length, arith, ◌==◌, Bool-cases,
}
use league_ranker.Nanopb.Iter.{Field, FieldIter, field_at, iter_next, matches, find_loop, iter_find}
use league_ranker.Nanopb.Iter.Walk.{IsFields, walk, walk-Stands, iter_next-last}

-- One round of the search, where it stops, comes home, or goes on.
module _ (fuel tag start : ℕ) (it : FieldIter) where
  find_loop-hit :
      matches tag (field_at it.start it.pos) ≡ true → find_loop (suc fuel) tag start it ≡ (true, it)
  unfolding find_loop
  find_loop-hit hit = rw (find_loop, hit) refl

  find_loop-home :
      matches tag (field_at it.start it.pos) ≡ false
      → (iter_next it).1.pos ≡ start
      → find_loop (suc fuel) tag start it ≡ (false, (iter_next it).1)
  unfolding find_loop iter_next
  find_loop-home miss home = let e = (==_iff _ start).1 home in rw (find_loop, miss, e) refl

  find_loop-on :
      matches tag (field_at it.start it.pos) ≡ false
      → ((iter_next it).1.pos == start) ≡ false
      → find_loop (suc fuel) tag start it ≡ find_loop fuel tag start (iter_next it).1
  unfolding find_loop
  find_loop-on miss away = rw (find_loop, miss, away) refl

-- `r` cells from `j` on, with the wrap from `n` to 0, have `k` among them.
abbrev Within : (n j r k : ℕ) → Type 0
Within n j r k = ((j ≤ k) × (k < j + r)) ⊎ (k + n < j + r)

module _ (fields : List Field) (dest tag i : ℕ) (v : IsFields fields) where
  -- The search stops at a field that matches, or comes back to where it was, and then none of the
  -- `r` fields from `j` on matches.
  abbrev pub Outcome : ℕ → ℕ → Bool × FieldIter → Type 0
  Outcome j r res =
      ((k : ℕ) × (k < length fields)
        × (matches tag (field_at fields k) ≡ true)
        × (res ≡ (true, walk fields dest k)))
      ⊎ ((res ≡ (false, walk fields dest i))
          × ((k : ℕ)
              → k < length fields
              → Within (length fields) j r k
              → matches tag (field_at fields k) ≡ false))

  -- `r` rounds after the field `j` the iterator is at `i` again.
  record Rounds (j r : ℕ) : Type 0 where
    position : j < length fields
    at_most : r ≤ length fields
    arrives : (j + r ≡ i) ⊎ (j + r ≡ i + length fields)

  -- The field behind `j`.
  next_field :
      (j r : ℕ)
      → i < length fields
      → Rounds j (suc r)
      → (j' : ℕ) × ((iter_next (walk fields dest j)).1 ≡ walk fields dest j')
        × Rounds j' r
        × ((k : ℕ)
            → k < length fields
            → Within (length fields) j (suc r) k
            → (k ≡ j) ⊎ Within (length fields) j' r k)
  unfolding walk
  next_field j r h w = elim (dec_le (suc (suc j)) (length fields)) [
    | yes inner ↦ (
      suc j,
      refl,
      record {
        position = inner;
        at_most = omega (arith, w.at_most);
        arrives = ground (arith, w.arrives);
      },
      λ k hk within. ground (arith, within),
    )
    | no outer ↦ (
      0,
      ap (λ r. r.1) (iter_next-last fields dest j v (omega (arith, w.position))),
      record {
        position = omega (arith, h);
        at_most = omega (arith, w.at_most);
        arrives = ground (arith, w.arrives, w.position);
      },
      λ k hk within. ground (arith, within, w.position),
    )
  ]

  find_loop-Outcome :
      (fuel j r : ℕ)
      → i < length fields
      → r < fuel
      → Rounds j (suc r)
      → Outcome j (suc r) (find_loop fuel tag i (walk fields dest j))
  find_loop-Outcome zero j r h enough w = absurd (omega arith)
  find_loop-Outcome (suc fuel) j r h enough w =
      let s = walk-Stands fields dest j v w.position in
      let it = walk fields dest j in
      let here : field_at it.start it.pos ≡ field_at fields j =
        ap₂ (λ fs p. field_at fs p) s.over s.place in
      let (j', moved, w', cover) = next_field j r h w in
      let s' = walk-Stands fields dest j' v w'.position in
      let standing : (iter_next it).1.pos ≡ j' = ap (λ t. t.pos) moved ∙ s'.place in
      elim (Bool-cases (matches tag (field_at fields j))) [
        | inl hit ↦
            inl
              (j, w.position, hit, find_loop-hit fuel tag i it (ap (λ f. matches tag f) here ∙ hit))
        | inr miss ↦ elim (Bool-cases (j' == i)) [
          | inl same ↦ inr (
            find_loop-home fuel tag i it (ap (λ f. matches tag f) here ∙ miss)
                  (standing ∙ (==_iff j' i).0 same)
                ∙ ap (λ t. (false, t))
                    (moved ∙ ap (λ k. walk fields dest k) ((==_iff j' i).0 same)),
            λ k hk within. elim (cover k hk within) [
              | inl e ↦ ap (λ m. matches tag (field_at fields m)) e ∙ miss
              | inr inside ↦
                  let e = (==_iff j' i).0 same in
                  absurd (ground (arith, e, inside, w'.arrives, w.at_most))
            ],
          )
          | inr away ↦
              let left : 0 < r = ground (arith, away, w'.arrives, w'.position) in
              let later = find_loop-Outcome fuel j' (r - 1) h (omega arith) (record {
                position = w'.position;
                at_most = omega (arith, w.at_most);
                arrives = ground (arith, w'.arrives);
              }) in
              let on =
                find_loop-on fuel tag i it (ap (λ f. matches tag f) here ∙ miss)
                  (ap (λ p. p == i) standing ∙ away)
                ∙ ap (λ t. find_loop fuel tag i t) moved in
              elim later [
                | inl (k, hk, hit, e) ↦ inl (k, hk, hit, on ∙ e)
                | inr (e, missed) ↦ inr (
                  on ∙ e,
                  λ k hk within. elim (cover k hk within) [
                    | inl e ↦ ap (λ m. matches tag (field_at fields m)) e ∙ miss
                    | inr inside ↦ missed k hk (ground (arith, inside))
                  ],
                )
              ]
        ]
      ]

-- From any field of a message that has one, `pb_field_iter_find` either stops at a field with the tag
-- that is no extension, where its pointers are those of the walk from the start; or it gives false,
-- the iterator is as before, and no field of the message is such a field.
pub find_exact :
    (fields : List Field) (dest tag i : ℕ)
    → IsFields fields
    → i < length fields
    → ((k : ℕ) × (k < length fields)
        × (matches tag (field_at fields k) ≡ true)
        × (iter_find (walk fields dest i) tag ≡ (true, walk fields dest k)))
      ⊎ ((iter_find (walk fields dest i) tag ≡ (false, walk fields dest i))
          × ((k : ℕ) → k < length fields → matches tag (field_at fields k) ≡ false))
unfolding iter_find
find_exact fields dest tag i v h =
    let s = walk-Stands fields dest i v h in
    let n = length fields in
    let same : iter_find (walk fields dest i) tag ≡ find_loop (suc n) tag i (walk fields dest i) =
      ap₂ (λ (fs : List Field) p. find_loop (suc (length fs)) tag p (walk fields dest i)) s.over
        s.place in
    let found =
      find_loop-Outcome fields dest tag i v (suc n) i (n - 1) h (omega arith)
        (record { position = h; at_most = omega arith; arrives = inr (omega arith) }) in
    elim found [
      | inl (k, hk, hit, e) ↦ inl (k, hk, hit, same ∙ e)
      | inr (e, missed) ↦ inr (same ∙ e, λ k hk. missed k hk (ground arith))
    ]
