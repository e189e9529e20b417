-- ===== src/League/Autocomplete.antt =====
-- datasourceForAutocomplete of League.swift.
pub mod Unique
use league_ranker.Prelude.{
  Bool, true, false, ◌||◌, List, [], ◌∷◌, ◌++◌, Option, none, some, if◌then◌else◌,
}
use league_ranker.Swift.Dictionary.{Hashable, Dictionary, get, put, remove, merging}
use league_ranker.League.PlayerForm.{PlayerForm}

-- The dictionaries and the array that the loop fills.
pub record Names (S : Type 0) : Type 0 where
  pub display_names : Dictionary S S
  pub real_names : Dictionary S S
  pub duplicates : List S

module _ {S : Type 0} ⦃h : Hashable S⦄ where
  -- `contains`
  unfoldable pub contains : List S → S → Bool
  contains [] x = false
  contains (y ∷ ys) x = h.same y x || contains ys x

  unfoldable pub no_names : Names S
  no_names = record { display_names = []; real_names = []; duplicates = [] }

module _ {S W : Type 0} ⦃h : Hashable S⦄ where
  -- A round of the loop.
  unfoldable pub add_names : PlayerForm S W → Names S → Names S
  add_names p n =
      let display = put n.display_names p.display_name p.display_name in
      elim (get n.real_names p.real_name) [
        | some _ ↦ record {
          display_names = display;
          real_names = remove n.real_names p.real_name;
          duplicates = n.duplicates ++ p.real_name ∷ [];
        }
        | none ↦
            if contains n.duplicates p.real_name
            then record n { display_names = display }
            else record n {
              display_names = display;
              real_names = put n.real_names p.real_name p.display_name;
            }
      ]

  unfoldable pub all_names : List (PlayerForm S W) → Names S → Names S
  all_names [] n = n
  all_names (p ∷ ps) n = all_names ps (add_names p n)

  -- The names offered for a league's sorted players, each with the display name that it stands for.
  unfoldable pub datasource_for_autocomplete : List (PlayerForm S W) → Dictionary S S
  datasource_for_autocomplete players =
      let n = all_names players no_names in merging n.display_names n.real_names
