-- ===== src/Swift/Sorting.antt =====
-- sorted(by:) and the order of a dictionary's entries, with what the documentation says of them, and
-- an instance that meets it.
use mathlib.Core.List.Permᴰ
use mathlib.Core.List.{Permᴰ}
use league_ranker.Prelude.{
  ◌≡◌, refl, Bool, false, List, [], ◌∷◌, if◌then◌else◌, Bool-cases, inl, inr, All,
}
use league_ranker.Swift.Order.{IsStrictWeak, IsOrdered, All-rearranged}
use league_ranker.Swift.Dictionary.{Dictionary}

pub record Standard : Type 1 where
  -- The entries of a dictionary, in the order of a loop over it.
  pub entries : (K V : Type 0) → Dictionary K V → List (K × V)
  -- `xs.sorted(by: before)`
  pub sorted : (A : Type 0) → (A → A → Bool) → List A → List A

pub record IsStandard (s : Standard) : Type 1 where
  -- A loop meets every entry once.
  pub entries_all : (K V : Type 0) (d : Dictionary K V) → Permᴰ (s.entries K V d) d
  pub sorted_lem :
      (A : Type 0) (Valid : A → Type 0) (before : A → A → Bool) (xs : List A)
      → IsStrictWeak Valid before
      → All Valid xs
      → Permᴰ (s.sorted A before xs) xs × IsOrdered before (s.sorted A before xs)

module _ {A : Type 0} (before : A → A → Bool) where
  insert : A → List A → List A
  insert x [] = x ∷ []
  insert x (y ∷ ys) = if before y x then y ∷ insert x ys else x ∷ y ∷ ys

  unfoldable pub insertion_sort : List A → List A
  unfolding insert
  insertion_sort [] = []
  insertion_sort (x ∷ xs) = insert x (insertion_sort xs)

  insert-perm : (x : A) (ys : List A) → Permᴰ (insert x ys) (x ∷ ys)
  unfolding insert
  insert-perm x [] = Permᴰ.refl (x ∷ [])
  insert-perm x (y ∷ ys) = elim (Bool-cases (before y x)) [
    | inl later ↦
        rw (later, insert) (Permᴰ.trans (Permᴰ.cons refl (insert-perm x ys)) (Permᴰ.swap refl refl))
    | inr here ↦ rw (here, insert) (Permᴰ.refl (x ∷ y ∷ ys))
  ]

  insertion_sort-perm : (xs : List A) → Permᴰ (insertion_sort xs) xs
  unfolding insertion_sort
  insertion_sort-perm [] = Permᴰ.nil
  insertion_sort-perm (x ∷ xs) =
      Permᴰ.trans (insert-perm x (insertion_sort xs)) (Permᴰ.cons refl (insertion_sort-perm xs))

  module _ {Valid : A → Type 0} (w : IsStrictWeak Valid before) where
    behind-All :
        (x y : A) (ys : List A)
        → Valid x
        → Valid y
        → All Valid ys
        → before y x ≡ false
        → All (λ z. before z y ≡ false) ys
        → All (λ z. before z x ≡ false) ys
    behind-All x y [] vx vy vs e h = tt
    behind-All x y (z ∷ zs) vx vy vs e h =
        (w.chains z y x vs.0 vy vx h.0 e, behind-All x y zs vx vy vs.1 e h.1)

    insert-IsOrdered :
        (x : A) (ys : List A)
        → Valid x
        → All Valid ys
        → IsOrdered before ys
        → IsOrdered before (insert x ys)
    unfolding insert
    insert-IsOrdered x [] vx vs h = (tt, tt)
    insert-IsOrdered x (y ∷ ys) vx vs h = elim (Bool-cases (before y x)) [
      | inl later ↦
          rw (later, insert)
            (
              All-rearranged (λ z. before z y ≡ false) (Permᴰ.symm (insert-perm x ys))
                  (w.asymmetric y x vs.0 vx later, h.0),
              insert-IsOrdered x ys vx vs.1 h.1,
            )
      | inr here ↦ rw (here, insert) ((here, behind-All x y ys vx vs.0 vs.1 here h.0), (h.0, h.1))
    ]

    insertion_sort-IsOrdered : (xs : List A) → All Valid xs → IsOrdered before (insertion_sort xs)
    unfolding insertion_sort
    insertion_sort-IsOrdered [] vs = tt
    insertion_sort-IsOrdered (x ∷ xs) vs =
        insert-IsOrdered x (insertion_sort xs) vs.0
          (All-rearranged Valid (Permᴰ.symm (insertion_sort-perm xs)) vs.1)
          (insertion_sort-IsOrdered xs vs.1)

-- Entries in the order of their insertion, and insertion sort.
abbrev pub plain : Standard
plain = record { entries = λ K V d. d; sorted = λ A before xs. insertion_sort before xs }

pub plain-IsStandard : IsStandard plain
plain-IsStandard = record {
  entries_all = λ K V d. Permᴰ.refl d;
  sorted_lem = λ A Valid before xs w vs.
      (insertion_sort-perm before xs, insertion_sort-IsOrdered before w xs vs);
}
