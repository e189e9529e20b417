-- ===== src/League/Games/Parts.antt =====
-- The entries of a game's dictionary in any order.
use mathlib.Core.Path.{subst}
use mathlib.Core.List.{Permᴰ}
use mathlib.Core.List.Permᴰ
use league_ranker.Prelude.{
  ◌≡◌, refl, sym, ◌∙◌, ◌⊎◌, inl, inr, List, [], ◌∷◌, ◌++◌, Option, none, some, arith, map,
  append-nil, append_assoc,
}
use league_ranker.Swift.Int.{ℤ}
use league_ranker.Swift.Order.{one_rearranged, two_rearranged}
use league_ranker.League.Games.{Reading}

-- The result in front, if there is one.
abbrev cons_if : {B : Type 0} → Option B → List B → List B
cons_if none ys = ys
cons_if (some y) ys = y ∷ ys

cons_if_swap :
    {B : Type 0} (u v : Option B) (ys : List B)
    → Permᴰ (cons_if u (cons_if v ys)) (cons_if v (cons_if u ys))
cons_if_swap none v ys = Permᴰ.refl (cons_if v ys)
cons_if_swap (some u) none ys = Permᴰ.refl (u ∷ ys)
cons_if_swap (some u) (some v) ys = Permᴰ.swap refl refl

cons_if_cons :
    {B : Type 0} (u : Option B) {xs ys : List B} → Permᴰ xs ys → Permᴰ (cons_if u xs) (cons_if u ys)
cons_if_cons none d = d
cons_if_cons (some u) d = Permᴰ.cons refl d

module _ {A B : Type 0} (pick : A → Option B) where
  -- The results of the elements that have one.
  abbrev pub picked : List A → List B
  picked [] = []
  picked (x ∷ xs) = cons_if (pick x) (picked xs)

  pub picked-rearranged : {xs ys : List A} → Permᴰ xs ys → Permᴰ (picked xs) (picked ys)
  picked-rearranged Permᴰ.nil = Permᴰ.nil
  picked-rearranged (Permᴰ.cons {a = a} {b = b} {l₁ = l} {l₂ = m} e d) =
      subst (λ t. Permᴰ (picked (a ∷ l)) (picked (t ∷ m))) e
        (cons_if_cons (pick a) (picked-rearranged d))
  picked-rearranged (Permᴰ.swap {a = a} {b = b} {a' = a'} {b' = b'} {l = l} e f) =
      subst (λ t. Permᴰ (picked (a ∷ b ∷ l)) (picked (t ∷ b' ∷ l))) f
        (subst (λ t. Permᴰ (picked (a ∷ b ∷ l)) (picked (b ∷ t ∷ l))) e
          (cons_if_swap (pick a) (pick b) (picked l)))
  picked-rearranged (Permᴰ.trans d f) = Permᴰ.trans (picked-rearranged d) (picked-rearranged f)

abbrev last_or : {A : Type 0} → A → List A → A
last_or x [] = x
last_or x (y ∷ ys) = last_or y ys

-- What an entry says of a game.
pub data Part (S : Type 0) : Type 0 where
  team : ℤ → S → S → Part S
  inputter : S → Part S
  date : ℤ → Part S

module _ {S : Type 0} where
  abbrev pub apply : Reading S → Part S → Reading S
  apply r (team n a b) = record r {
    scores = r.scores ++ n ∷ [];
    teams = r.teams ++ (a ∷ b ∷ []) ∷ [];
  }
  apply r (inputter s) = record r { inputter = s }
  apply r (date n) = record r { date = n }

  abbrev pub apply_all : Reading S → List (Part S) → Reading S
  apply_all r [] = r
  apply_all r (p ∷ ps) = apply_all (apply r p) ps

  abbrev pub as_team : Part S → Option (ℤ × List S)
  as_team (team n a b) = some (n, a ∷ b ∷ [])
  as_team other = none

  abbrev pub as_inputter : Part S → Option S
  as_inputter (inputter s) = some s
  as_inputter other = none

  abbrev pub as_date : Part S → Option ℤ
  as_date (date n) = some n
  as_date other = none

  apply_all-scores :
      (r : Reading S) (ps : List (Part S))
      → (apply_all r ps).scores ≡ r.scores ++ map (λ (t : ℤ × List S). t.0) (picked as_team ps)
  apply_all-scores r [] = sym (append-nil r.scores)
  apply_all-scores r (team n a b ∷ ps) =
      apply_all-scores (apply r (team n a b)) ps ∙ rw append_assoc refl
  apply_all-scores r (inputter s ∷ ps) = apply_all-scores (apply r (inputter s)) ps
  apply_all-scores r (date n ∷ ps) = apply_all-scores (apply r (date n)) ps

  apply_all-teams :
      (r : Reading S) (ps : List (Part S))
      → (apply_all r ps).teams ≡ r.teams ++ map (λ (t : ℤ × List S). t.1) (picked as_team ps)
  apply_all-teams r [] = sym (append-nil r.teams)
  apply_all-teams r (team n a b ∷ ps) =
      apply_all-teams (apply r (team n a b)) ps ∙ rw append_assoc refl
  apply_all-teams r (inputter s ∷ ps) = apply_all-teams (apply r (inputter s)) ps
  apply_all-teams r (date n ∷ ps) = apply_all-teams (apply r (date n)) ps

  apply_all-inputter :
      (r : Reading S) (ps : List (Part S))
      → (apply_all r ps).inputter ≡ last_or r.inputter (picked as_inputter ps)
  apply_all-inputter r [] = refl
  apply_all-inputter r (team n a b ∷ ps) = apply_all-inputter (apply r (team n a b)) ps
  apply_all-inputter r (inputter s ∷ ps) = apply_all-inputter (apply r (inputter s)) ps
  apply_all-inputter r (date n ∷ ps) = apply_all-inputter (apply r (date n)) ps

  apply_all-date :
      (r : Reading S) (ps : List (Part S))
      → (apply_all r ps).date ≡ last_or r.date (picked as_date ps)
  apply_all-date r [] = refl
  apply_all-date r (team n a b ∷ ps) = apply_all-date (apply r (team n a b)) ps
  apply_all-date r (inputter s ∷ ps) = apply_all-date (apply r (inputter s)) ps
  apply_all-date r (date n ∷ ps) = apply_all-date (apply r (date n)) ps

  -- A reading of a game's four parts, in either order of the teams.
  abbrev pub reading_of : ℤ × List S → ℤ × List S → S → ℤ → Reading S
  reading_of t u i n = record {
    scores = t.0 ∷ u.0 ∷ [];
    teams = t.1 ∷ u.1 ∷ [];
    inputter = i;
    date = n;
  }

  pub four_parts :
      (r : Reading S) (n m : ℤ) (a b c e i : S) (day : ℤ) {ps : List (Part S)}
      → r.scores ≡ []
      → r.teams ≡ []
      → Permᴰ ps (team n a b ∷ team m c e ∷ inputter i ∷ date day ∷ [])
      → (apply_all r ps ≡ reading_of (n, a ∷ b ∷ []) (m, c ∷ e ∷ []) i day)
        ⊎ (apply_all r ps ≡ reading_of (m, c ∷ e ∷ []) (n, a ∷ b ∷ []) i day)
  four_parts r n m a b c e i day {ps} no_scores no_teams perm =
      let inputters = one_rearranged i (picked-rearranged as_inputter perm) refl in
      let dates = one_rearranged day (picked-rearranged as_date perm) refl in
      let t : ℤ × List S = (n, a ∷ b ∷ []) in
      let u : ℤ × List S = (m, c ∷ e ∷ []) in
      elim (two_rearranged t u (picked-rearranged as_team perm) refl) [
        | inl kept ↦ inl (
            ground (
              arith,
              apply_all-scores r ps,
              apply_all-teams r ps,
              apply_all-inputter r ps,
              apply_all-date r ps,
            ))
        | inr turned ↦ inr (
            ground (
              arith,
              apply_all-scores r ps,
              apply_all-teams r ps,
              apply_all-inputter r ps,
              apply_all-date r ps,
            ))
      ]
