-- ===== src/League/Autocomplete/Unique.antt =====
-- Which names datasourceForAutocomplete offers.
use league_ranker.Prelude.{
  ◌≡◌, refl, ◌⊎◌, Bool, true, false, ◌||◌, List, [], ◌∷◌, ◌++◌, Option, none, some, arith,
  append_assoc, append-nil, if◌then◌else◌, inl, inr,
}
use league_ranker.Swift.Dictionary.{Hashable, IsEquality, get, get-put, get-remove, get-merging}
use league_ranker.League.PlayerForm.{PlayerForm}
use league_ranker.League.Autocomplete.{
  Names, contains, add_names, all_names, no_names, datasource_for_autocomplete,
}

module _ {S : Type 0} where
  -- The only element.
  abbrev pub sole : List S → Option S
  sole [] = none
  sole (x ∷ []) = some x
  sole (x ∷ y ∷ ys) = none

  abbrev several : List S → Bool
  several [] = false
  several (x ∷ []) = false
  several (x ∷ y ∷ ys) = true

  sizes :
      (xs : List S)
      → (xs ≡ [])
        ⊎ (((x : S) × (xs ≡ x ∷ [])) ⊎ ((x : S) × (y : S) × (ys : List S) × (xs ≡ x ∷ y ∷ ys)))
  sizes [] = inl refl
  sizes (x ∷ []) = inr (inl (x, refl))
  sizes (x ∷ y ∷ ys) = inr (inr (x, y, ys, refl))

contains-append :
    {S : Type 0} ⦃h : Hashable S⦄ (xs : List S) (y x : S)
    → contains (xs ++ y ∷ []) x ≡ (contains xs x || h.same y x)
unfolding contains
contains-append [] y x = ground arith
contains-append (z ∷ xs) y x = ground (arith, contains-append xs y x)

module _ {S W : Type 0} ⦃h : Hashable S⦄ where
  -- The display names of the players with the real name.
  abbrev pub bearers : List (PlayerForm S W) → S → List S
  bearers [] name = []
  bearers (p ∷ ps) name =
      if h.same p.real_name name then p.display_name ∷ bearers ps name else bearers ps name

  -- Whether a player has the display name.
  abbrev pub is_displayed : List (PlayerForm S W) → S → Bool
  is_displayed [] name = false
  is_displayed (p ∷ ps) name = h.same p.display_name name || is_displayed ps name

  -- What the loop has gathered from these players.
  record Gathered (ps : List (PlayerForm S W)) (n : Names S) : Type 0 where
    displayed :
        (name : S) → get n.display_names name ≡ (if is_displayed ps name then some name else none)
    real : (name : S) → get n.real_names name ≡ sole (bearers ps name)
    shared : (name : S) → contains n.duplicates name ≡ several (bearers ps name)

  bearers-append :
      (ps : List (PlayerForm S W)) (p : PlayerForm S W) (name : S)
      → bearers (ps ++ p ∷ []) name
        ≡ bearers ps name ++ (if h.same p.real_name name then p.display_name ∷ [] else [])
  bearers-append [] p name = ground arith
  bearers-append (q ∷ ps) p name = ground (arith, bearers-append ps p name)

  is_displayed-append :
      (ps : List (PlayerForm S W)) (p : PlayerForm S W) (name : S)
      → is_displayed (ps ++ p ∷ []) name ≡ (is_displayed ps name || h.same p.display_name name)
  is_displayed-append [] p name = ground arith
  is_displayed-append (q ∷ ps) p name = ground (arith, is_displayed-append ps p name)

  module _ (e : IsEquality S) (ps : List (PlayerForm S W)) (p : PlayerForm S W) (n : Names S)
      (g : Gathered ps n) (name : S) where
    add_names-displayed :
        get (add_names p n).display_names name
        ≡ (if is_displayed (ps ++ p ∷ []) name then some name else none)
    unfolding add_names
    add_names-displayed = ground (
      arith,
      is_displayed-append ps p name,
      get-put e n.display_names p.display_name name p.display_name,
      e.same_iff p.display_name name,
      g.displayed name,
    )

    add_names-real : get (add_names p n).real_names name ≡ sole (bearers (ps ++ p ∷ []) name)
    unfolding add_names
    add_names-real = elim (sizes (bearers ps p.real_name)) [
      | inl nobody ↦ ground (
        arith,
        bearers-append ps p name,
        append-nil (bearers ps name),
        get-put e n.real_names p.real_name name p.display_name,
        e.same_iff p.real_name name,
        g.real name,
        g.real p.real_name,
        g.shared p.real_name,
      )
      | inr (inl (x, one)) ↦ ground (
        arith,
        bearers-append ps p name,
        append-nil (bearers ps name),
        get-remove e n.real_names p.real_name name,
        e.same_iff p.real_name name,
        g.real name,
        g.real p.real_name,
      )
      | inr (inr (x, y, ys, more)) ↦ ground (
        arith,
        bearers-append ps p name,
        append-nil (bearers ps name),
        e.same_iff p.real_name name,
        g.real name,
        g.real p.real_name,
        g.shared p.real_name,
      )
    ]

    add_names-shared :
        contains (add_names p n).duplicates name ≡ several (bearers (ps ++ p ∷ []) name)
    unfolding add_names
    add_names-shared = elim (sizes (bearers ps p.real_name)) [
      | inl nobody ↦ ground (
        arith,
        bearers-append ps p name,
        append-nil (bearers ps name),
        e.same_iff p.real_name name,
        g.shared name,
        g.real p.real_name,
        g.shared p.real_name,
      )
      | inr (inl (x, one)) ↦ ground (
        arith,
        bearers-append ps p name,
        append-nil (bearers ps name),
        contains-append n.duplicates p.real_name name,
        e.same_iff p.real_name name,
        g.shared name,
        g.real p.real_name,
      )
      | inr (inr (x, y, ys, more)) ↦ ground (
        arith,
        bearers-append ps p name,
        append-nil (bearers ps name),
        e.same_iff p.real_name name,
        g.shared name,
        g.real p.real_name,
        g.shared p.real_name,
      )
    ]

  all_names-Gathered :
      (e : IsEquality S) (done ps : List (PlayerForm S W)) (n : Names S)
      → Gathered done n
      → Gathered (done ++ ps) (all_names ps n)
  unfolding all_names
  all_names-Gathered e done [] n g = rw append-nil g
  all_names-Gathered e done (p ∷ ps) n g =
      let step : Gathered (done ++ p ∷ []) (add_names p n) = record {
        displayed = add_names-displayed e done p n g;
        real = add_names-real e done p n g;
        shared = add_names-shared e done p n g;
      } in
      rw append_assoc at (all_names-Gathered e (done ++ p ∷ []) ps (add_names p n) step)

  -- datasourceForAutocomplete offers the display name of each player, for itself, and of the other
  -- names exactly those that are the real name of one player alone, for that player's display name;
  -- a real name of two or more players stands for none of them.
  pub datasource_for_autocomplete_exact :
      (e : IsEquality S) (players : List (PlayerForm S W)) (name : S)
      → get (datasource_for_autocomplete players) name
        ≡ (if is_displayed players name then some name else sole (bearers players name))
  unfolding datasource_for_autocomplete no_names get contains
  datasource_for_autocomplete_exact e players name =
      let empty : Gathered [] no_names = record {
        displayed = λ k. refl;
        real = λ k. refl;
        shared = λ k. refl;
      } in
      let g = all_names-Gathered e [] players no_names empty in
      let n = all_names players no_names in
      ground (arith, get-merging e n.display_names n.real_names name, g.displayed name, g.real name)
