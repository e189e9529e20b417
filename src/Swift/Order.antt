-- ===== src/Swift/Order.antt =====
-- Strict weak orders, the lists that they put in order, and rearrangements.
use mathlib.Core.Path.{subst}
use mathlib.Core.List.{Permᴰ}
use league_ranker.Prelude.{◌≡◌, Bool, true, false, List, [], ◌∷◌, inl, inr, ◌⊎◌, All}

-- What sorted(by:) asks of its predicate, on the values of a predicate `Valid`. That no order on two
-- pairs means none on the outer values says that being incomparable is transitive.
pub record IsStrictWeak {A : Type 0} (Valid : A → Type 0) (before : A → A → Bool) : Type 0 where
  pub asymmetric : (a b : A) → Valid a → Valid b → before a b ≡ true → before b a ≡ false
  pub chains :
      (a b c : A)
      → Valid a
      → Valid b
      → Valid c
      → before a b ≡ false
      → before b c ≡ false
      → before a c ≡ false

-- No element comes before one that stands earlier.
abbrev pub IsOrdered : {A : Type 0} → (A → A → Bool) → List A → Type 0
IsOrdered before [] = Unit
IsOrdered before (x ∷ xs) = All (λ y. before y x ≡ false) xs × IsOrdered before xs

module _ {A : Type 0} where
  -- What holds of all elements holds of all elements in another order.
  pub All-rearranged : (P : A → Type 0) {xs ys : List A} → Permᴰ xs ys → All P xs → All P ys
  All-rearranged P Permᴰ.nil h = h
  All-rearranged P (Permᴰ.cons e d) h = (subst P e h.0, All-rearranged P d h.1)
  All-rearranged P (Permᴰ.swap e f) h = (subst P f h.1.0, (subst P e h.0, h.1.1))
  All-rearranged P (Permᴰ.trans d f) h = All-rearranged P f (All-rearranged P d h)

  pub none_rearranged : {xs ys : List A} → Permᴰ xs ys → ys ≡ [] → xs ≡ []
  none_rearranged Permᴰ.nil e = e
  none_rearranged (Permᴰ.cons a d) e = cc
  none_rearranged (Permᴰ.swap a b) e = cc
  none_rearranged (Permᴰ.trans d f) e = none_rearranged d (none_rearranged f e)

  pub one_rearranged : {xs ys : List A} (x : A) → Permᴰ xs ys → ys ≡ x ∷ [] → xs ≡ x ∷ []
  one_rearranged x Permᴰ.nil e = e
  one_rearranged x (Permᴰ.cons a d) e = cc (none_rearranged d (cc))
  one_rearranged x (Permᴰ.swap a b) e = cc
  one_rearranged x (Permᴰ.trans d f) e = one_rearranged x d (one_rearranged x f e)

  -- A list of two elements has two orders.
  pub two_rearranged :
      {xs ys : List A} (x y : A)
      → Permᴰ xs ys
      → ys ≡ x ∷ y ∷ []
      → (xs ≡ x ∷ y ∷ []) ⊎ (xs ≡ y ∷ x ∷ [])
  two_rearranged x y Permᴰ.nil e = cc
  two_rearranged x y (Permᴰ.cons a d) e = inl (cc (one_rearranged y d (cc)))
  two_rearranged x y (Permᴰ.swap a b) e = inr (cc)
  two_rearranged x y (Permᴰ.trans d f) e = elim (two_rearranged x y f e) [
    | inl same ↦ two_rearranged x y d same
    | inr turned ↦ elim (two_rearranged y x d turned) [ inl r ↦ inr r | inr r ↦ inl r ]
  ]
