-- ===== src/League/Players/Standings.antt =====
-- Ranks by comparing each element of an ordered list with the one before it, against the number of
-- elements that are better.
use mathlib.Core.List.{Permᴰ}
use league_ranker.Prelude.{
  ℕ, suc, ◌+◌, ◌≡◌, refl, sym, ◌∙◌, ap₂, Bool, true, false, List, [], ◌∷◌, arith, length, map, All,
  if◌then◌else◌, Bool-cases, inl, inr,
}
use league_ranker.Swift.Order.{IsStrictWeak, IsOrdered}

-- How many elements pass the test.
abbrev pub count_if : {A : Type 0} → (A → Bool) → List A → ℕ
count_if test [] = 0
count_if test (x ∷ xs) = (if test x then 1 else 0) + count_if test xs

pub count_if-rearranged :
    {A : Type 0} (test : A → Bool) {xs ys : List A}
    → Permᴰ xs ys
    → count_if test xs ≡ count_if test ys
count_if-rearranged test Permᴰ.nil = refl
count_if-rearranged test (Permᴰ.cons e d) =
    ap₂ (λ x n. (if test x then 1 else 0) + n) e (count_if-rearranged test d)
count_if-rearranged test (Permᴰ.swap {a = a} {b = b} {l = l} e f) =
    ap₂ (λ x y. (if test x then 1 else 0) + ((if test y then 1 else 0) + count_if test l)) e f
    ∙ omega arith
count_if-rearranged test (Permᴰ.trans d f) = count_if-rearranged test d ∙ count_if-rearranged test f

module _ {A : Type 0} (better : A → A → Bool) where
  -- The ranks from index `i` on, where `count` elements are better than `previous`.
  unfoldable pub standings : ℕ → ℕ → A → List A → List ℕ
  standings i count previous [] = []
  standings i count previous (x ∷ xs) =
      let count' = if better previous x then i else count in
      (count' + 1) ∷ standings (suc i) count' x xs

  pub none_better :
      (x : A) (xs : List A) → All (λ y. better y x ≡ false) xs → count_if (λ y. better y x) xs ≡ 0
  none_better x [] h = refl
  none_better x (y ∷ xs) h = rw h.0 (ground (arith, none_better x xs h.1))

  module _ {Valid : A → Type 0} (w : IsStrictWeak Valid better) where
    pub irreflexive : (x : A) → Valid x → better x x ≡ false
    irreflexive x v = ground (arith, w.asymmetric x x v v)

    -- Everyone seen is better than x if `previous` is.
    everyone_better :
        (previous x : A) (seen : List A)
        → Valid previous
        → Valid x
        → All Valid seen
        → All (λ q. better previous q ≡ false) seen
        → better previous x ≡ true
        → count_if (λ q. better q x) seen ≡ length seen
    everyone_better previous x [] vp vx vs level gap = refl
    everyone_better previous x (q ∷ seen) vp vx vs level gap =
        let rest = everyone_better previous x seen vp vx vs.1 level.1 gap in
        ground (arith, w.chains previous q x vp vs.0 vx level.0, rest)

    -- Who is better than x is better than `previous`, and the other way round, if neither of the two
    -- is better than the other.
    same_better :
        (previous x : A) (seen : List A)
        → Valid previous
        → Valid x
        → All Valid seen
        → better previous x ≡ false
        → better x previous ≡ false
        → count_if (λ q. better q x) seen ≡ count_if (λ q. better q previous) seen
    same_better previous x [] vp vx vs level back = refl
    same_better previous x (q ∷ seen) vp vx vs level back =
        let rest = same_better previous x seen vp vx vs.1 level back in
        ground (arith, w.chains q previous x vs.0 vp vx, w.chains q x previous vs.0 vx vp, rest)

    still_level :
        (previous x : A) (seen : List A)
        → Valid previous
        → Valid x
        → All Valid seen
        → All (λ q. better previous q ≡ false) seen
        → better x previous ≡ false
        → All (λ q. better x q ≡ false) seen
    still_level previous x [] vp vx vs level back = tt
    still_level previous x (q ∷ seen) vp vx vs level back = (
      w.chains x previous q vx vp vs.0 back level.0,
      still_level previous x seen vp vx vs.1 level.1 back,
    )

    -- Every rank is one more than the number of elements that are better.
    pub standings_exact :
        (total : A → ℕ) (previous : A) (seen rest : List A) (count : ℕ)
        → Valid previous
        → All Valid seen
        → All Valid rest
        → All (λ q. better previous q ≡ false) seen
        → All (λ z. better z previous ≡ false) rest
        → IsOrdered better rest
        → count ≡ count_if (λ q. better q previous) seen
        → ((x : A) → total x ≡ count_if (λ q. better q x) seen + count_if (λ q. better q x) rest)
        → standings (length seen) count previous rest ≡ map (λ x. total x + 1) rest
    unfolding standings
    standings_exact total previous seen [] count vp vs vr level behind order c t = refl
    standings_exact total previous seen (x ∷ rest) count vp vs vr level behind order c t =
        let count' : ℕ = if better previous x then length seen else count in
        let own = irreflexive x vr.0 in
        let here : count' ≡ count_if (λ q. better q x) seen =
          elim (Bool-cases (better previous x)) [
            | inl gap ↦ rw gap (sym (everyone_better previous x seen vp vr.0 vs level gap))
            | inr tie ↦ rw tie (c ∙ sym (same_better previous x seen vp vr.0 vs tie behind.0))
          ] in
        let rank : count' ≡ total x = ground (arith, here, t x, own, none_better x rest order.0) in
        let c' : count' ≡ count_if (λ q. better q x) (x ∷ seen) = ground (arith, own, here) in
        ap₂ (λ r rs. (r + 1) ∷ rs) rank
          (standings_exact total x (x ∷ seen) rest count' vr.0 (vr.0, vs) vr.1
            (own, still_level previous x seen vp vr.0 vs level behind.0) order.0 order.1 c'
            (λ y. omega (arith, t y)))
