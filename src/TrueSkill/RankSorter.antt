-- ===== src/TrueSkill/RankSorter.antt =====
-- RankSorter.swift: the teams of a game in the order of their ranks.
pub mod Ranked
use league_ranker.Prelude.{Bool, true, false, List, [], ◌∷◌, Option, none, some, map, if◌then◌else◌}
use league_ranker.Swift.Int.{ℤ, pos, ltb_ℤ}
use league_ranker.Swift.Dictionary.{Hashable, Dictionary, put}
use league_ranker.Swift.Sorting.{Standard}

-- The loop over the ranks: whether one is below the rank before it, `lastObservedRank`.
unfoldable pub needs_sort : ℤ → List ℤ → Bool
needs_sort last [] = false
needs_sort last (rank ∷ ranks) = if ltb_ℤ rank last then true else needs_sort rank ranks

module _ {T : Type 0} where
  abbrev pub team_of : T × ℤ → T
  team_of entry = entry.0

  abbrev pub rank_of : T × ℤ → ℤ
  rank_of entry = entry.1

  -- `$0.1 < $1.1`
  abbrev pub by_rank : T × ℤ → T × ℤ → Bool
  by_rank a b = ltb_ℤ a.1 b.1

module _ {T : Type 0} ⦃h : Hashable T⦄ where
  -- `itemToRank`. `none` is the trap of an index beyond the ranks.
  unfoldable pub item_to_rank : List T → List ℤ → Dictionary T ℤ → Option (Dictionary T ℤ)
  item_to_rank [] ranks d = some d
  item_to_rank (team ∷ teams) [] d = none
  item_to_rank (team ∷ teams) (rank ∷ ranks) d = item_to_rank teams ranks (put d team rank)

module _ (standard : Standard) {T : Type 0} ⦃h : Hashable T⦄ where
  unfoldable pub sort : List T → List ℤ → Option (List T × List ℤ)
  unfolding needs_sort item_to_rank
  sort teams ranks =
      if needs_sort (pos 0) ranks
      then elim (item_to_rank teams ranks []) [
        | none ↦ none
        | some d ↦
            let sorted = standard.sorted (T × ℤ) by_rank (standard.entries T ℤ d) in
            some (map team_of sorted, map rank_of sorted)
      ]
      else some (teams, ranks)
