-- ===== src/Swift/Entries.antt =====
-- Dictionaries with their entries in another order, and the keys that they hold.
use mathlib.Core.Path.{subst}
use mathlib.Core.List.{Permᴰ}
use league_ranker.Prelude.{◌≡◌, refl, ◌∙◌, true, false, [], ◌∷◌, none, some, arith, All}
use league_ranker.Swift.Order.{All-rearranged}
use league_ranker.Swift.Dictionary.{Hashable, IsEquality, Dictionary, get}

module _ {K : Type 0} ⦃h : Hashable K⦄ where
  pub flip : (e : IsEquality K) (a b : K) → h.same a b ≡ false → h.same b a ≡ false
  flip e a b n = ground (arith, e.same_iff a b, e.same_iff b a)

  pub itself : (e : IsEquality K) (a : K) → h.same a a ≡ true
  itself e a = (e.same_iff a a).1 refl

module _ {K V : Type 0} ⦃h : Hashable K⦄ where
  -- No entry has the key.
  abbrev pub Lacks : Dictionary K V → K → Type 0
  Lacks d k = All (λ e. h.same e.0 k ≡ false) d

  -- Every key stands once.
  abbrev pub IsDictionary : Dictionary K V → Type 0
  IsDictionary [] = Unit
  IsDictionary (e ∷ d) = All (λ f. h.same e.0 f.0 ≡ false) d × IsDictionary d

  pub get-Lacks : (d : Dictionary K V) (k : K) → Lacks d k → get d k ≡ none
  unfolding get
  get-Lacks [] k n = refl
  get-Lacks ((j, v) ∷ d) k n = rw n.0 (get-Lacks d k n.1)

  module _ (e : IsEquality K) where
    -- A key that differs from those of all entries.
    pub get-absent :
        (d : Dictionary K V) (k : K) → All (λ f. h.same k f.0 ≡ false) d → get d k ≡ none
    unfolding get
    get-absent [] k n = refl
    get-absent ((j, v) ∷ d) k n = rw (flip e k j n.0) (get-absent d k n.1)

    pub IsDictionary-rearranged :
        {xs ys : Dictionary K V} → Permᴰ xs ys → IsDictionary xs → IsDictionary ys
    IsDictionary-rearranged Permᴰ.nil u = u
    IsDictionary-rearranged (Permᴰ.cons {b = b} {l₂ = l₂} eq d) u = (
      subst (λ x. All (λ (f : K × V). h.same x.0 f.0 ≡ false) l₂) eq
          (All-rearranged (λ f. h.same _ f.0 ≡ false) d u.0),
      IsDictionary-rearranged d u.1,
    )
    IsDictionary-rearranged (Permᴰ.swap {a = a} {b = b} {a' = a'} {b' = b'} {l = l} p q) u =
        let there : h.same a'.0 b'.0 ≡ false =
          subst (λ x. h.same x.0 b'.0 ≡ false) q
            (subst (λ x. h.same b.0 x.0 ≡ false) p (flip e a.0 b.0 u.0.0)) in
        (
          (there, subst (λ x. All (λ (f : K × V). h.same x.0 f.0 ≡ false) l) q u.1.0),
          (subst (λ x. All (λ (f : K × V). h.same x.0 f.0 ≡ false) l) p u.0.1, u.1.1),
        )
    IsDictionary-rearranged (Permᴰ.trans d f) u =
        IsDictionary-rearranged f (IsDictionary-rearranged d u)

    get_cons :
        (a b : K × V) (l m : Dictionary K V) (k : K)
        → a ≡ b
        → get l k ≡ get m k
        → get (a ∷ l) k ≡ get (b ∷ m) k
    unfolding get
    get_cons (i, v) (j, w) l m k eq rest =
        subst (λ x. get ((i, v) ∷ l) k ≡ get (x ∷ m) k) eq (rw rest refl)

    get_swap :
        (a b : K × V) (l : Dictionary K V) (k : K)
        → h.same a.0 b.0 ≡ false
        → get (a ∷ b ∷ l) k ≡ get (b ∷ a ∷ l) k
    unfolding get
    get_swap (i, v) (j, w) l k n = ground (arith, e.same_iff i k, e.same_iff j k, e.same_iff i j)

    -- A lookup does not depend on the order of the entries.
    pub get-rearranged :
        {xs ys : Dictionary K V} (k : K) → Permᴰ xs ys → IsDictionary xs → get xs k ≡ get ys k
    get-rearranged k Permᴰ.nil u = refl
    get-rearranged k (Permᴰ.cons {a = a} {b = b} {l₁ = l₁} {l₂ = l₂} eq d) u =
        get_cons a b l₁ l₂ k eq (get-rearranged k d u.1)
    get-rearranged k (Permᴰ.swap {a = a} {b = b} {a' = a'} {b' = b'} {l = l} p q) u =
        get_swap a b l k u.0.0
        ∙ subst (λ x. get (b ∷ a ∷ l) k ≡ get (x ∷ b' ∷ l) k) q
            (subst (λ x. get (b ∷ a ∷ l) k ≡ get (b ∷ x ∷ l) k) p refl)
    get-rearranged k (Permᴰ.trans d f) u =
        get-rearranged k d u ∙ get-rearranged k f (IsDictionary-rearranged d u)

    found_behind :
        (k : K) (v : V) (d ys : Dictionary K V)
        → All (λ y. get d y.0 ≡ some y.1) ys
        → All (λ y. h.same k y.0 ≡ false) ys
        → All (λ y. get ((k, v) ∷ d) y.0 ≡ some y.1) ys
    unfolding get
    found_behind k v d [] found others = tt
    found_behind k v d (y ∷ ys) found others =
        (rw others.0 found.0, found_behind k v d ys found.1 others.1)

    -- Every entry is found under its key.
    pub entries_found : (d : Dictionary K V) → IsDictionary d → All (λ y. get d y.0 ≡ some y.1) d
    unfolding get
    entries_found [] once = tt
    entries_found ((k, v) ∷ d) once =
        (rw (itself e k) refl, found_behind k v d d (entries_found d once.1) once.0)
