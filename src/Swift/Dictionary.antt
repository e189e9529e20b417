-- ===== src/Swift/Dictionary.antt =====
-- Dictionary: its entries, each with a key of its own, in the order in which the keys were put in.
use league_ranker.Prelude.{
  ◌≡◌, ◌↔◌, refl, Bool, true, List, [], ◌∷◌, Option, none, some, arith, if◌then◌else◌,
}

-- `==` of the keys.
pub record Hashable {ℓ} (K : Type ℓ) : Type ℓ where
  pub same : K → K → Bool

-- Keys that `==` tells apart just if they differ, as strings do.
pub record IsEquality {ℓ} (K : Type ℓ) ⦃h : Hashable K⦄ : Type ℓ where
  pub same_iff : (a b : K) → (h.same a b ≡ true) ↔ (a ≡ b)

abbrev pub Dictionary : Type 0 → Type 0 → Type 0
Dictionary K V = List (K × V)

module _ {K V : Type 0} ⦃h : Hashable K⦄ where
  -- `d[k]`
  unfoldable pub get : Dictionary K V → K → Option V
  get [] k = none
  get ((j, v) ∷ d) k = if h.same j k then some v else get d k

  -- `d[k] = v`
  unfoldable pub put : Dictionary K V → K → V → Dictionary K V
  put [] k v = (k, v) ∷ []
  put ((j, w) ∷ d) k v = if h.same j k then (j, v) ∷ d else (j, w) ∷ put d k v

  -- `d[k] = nil`
  unfoldable pub remove : Dictionary K V → K → Dictionary K V
  remove [] k = []
  remove ((j, w) ∷ d) k = if h.same j k then remove d k else (j, w) ∷ remove d k

  -- `d.merging(other) { (current, _) in current }`
  unfoldable pub merging : Dictionary K V → Dictionary K V → Dictionary K V
  unfolding get put
  merging d [] = d
  merging d ((k, v) ∷ other) = merging (elim (get d k) [ none ↦ put d k v | some _ ↦ d ]) other

  pub get-put :
      (e : IsEquality K) (d : Dictionary K V) (k j : K) (v : V)
      → get (put d k v) j ≡ (if h.same k j then some v else get d j)
  unfolding get put
  get-put e [] k j v = refl
  get-put e ((i, w) ∷ d) k j v =
      ground (arith, e.same_iff k j, e.same_iff i k, e.same_iff i j, get-put e d k j v)

  pub get-remove :
      (e : IsEquality K) (d : Dictionary K V) (k j : K)
      → get (remove d k) j ≡ (if h.same k j then none else get d j)
  unfolding get remove
  get-remove e [] k j = ground arith
  get-remove e ((i, w) ∷ d) k j =
      ground (arith, e.same_iff k j, e.same_iff i k, e.same_iff i j, get-remove e d k j)

  pub get-merging :
      (e : IsEquality K) (d other : Dictionary K V) (j : K)
      → get (merging d other) j ≡ elim (get d j) [ none ↦ get other j | some v ↦ some v ]
  unfolding get put merging
  get-merging e d [] j = ground arith
  get-merging e d ((k, v) ∷ other) j = ground (
    arith,
    e.same_iff k j,
    get-put e d k j v,
    get-merging e d other j,
    get-merging e (put d k v) other j,
  )
