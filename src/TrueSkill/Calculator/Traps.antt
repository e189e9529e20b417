-- ===== src/TrueSkill/Calculator/Traps.antt =====
-- The calls of CalculateNewRatings that trap.
use league_ranker.Prelude.{
  ℕ, ◌≡◌, refl, ◌<◌, ◌≤◌, ◌+◌, suc, ltb, List, [], ◌∷◌, Option, none, some, arith, All, length,
  get_elem?, ◌⊎◌, Bool-cases, inl, inr,
}
use mathlib.Core.Path.{subst}
use league_ranker.Swift.Int.{ℤ, pos}
use league_ranker.Swift.Dictionary.{Hashable, Dictionary}
use league_ranker.Swift.Sorting.{Standard}
use league_ranker.TrueSkill.Double.{Double}
use league_ranker.TrueSkill.Range.{validate, count_teams, is_in_range}
use league_ranker.TrueSkill.Rating.{GameInfo, Team, teams as teams_hashable}
use league_ranker.TrueSkill.RankSorter.{sort, item_to_rank, needs_sort}
use league_ranker.TrueSkill.TwoTeam.{players_per_team_allowed, total_teams_allowed}
use league_ranker.TrueSkill.Calculator.{◌>>=◌, checked, rate_sorted, calculate_new_ratings}

>>=-eq-some :
    {A B : Type 0} (m : Option A) (f : A → Option B) {b : B}
    → (m >>= f) ≡ some b
    → (a : A) × (m ≡ some a) × (f a ≡ some b)
>>=-eq-some (some a) f h = (a, refl, h)
>>=-eq-some none f h = cc

-- Two teams, neither of them empty.
abbrev pub AreTwo : {T : Type 0} → List (List T) → Type 0
AreTwo teams = (length teams ≡ 2) × All (λ team. 0 < length team) teams

count_teams-AreTwo :
    {T : Type 0} (count : ℕ) (teams : List (List T))
    → checked (count_teams total_teams_allowed players_per_team_allowed count teams) ≡ some tt
    → (length teams + count ≡ 2) × All (λ team. 0 < length team) teams
unfolding count_teams total_teams_allowed players_per_team_allowed is_in_range
count_teams-AreTwo count [] h = ground arith
count_teams-AreTwo count (team ∷ teams) h = ground (arith, count_teams-AreTwo (suc count) teams)

item_to_rank-none :
    {T : Type 0} ⦃h : Hashable T⦄ (teams : List T) (ranks : List ℤ) (d : Dictionary T ℤ)
    → length ranks < length teams
    → item_to_rank teams ranks d ≡ none
unfolding item_to_rank
item_to_rank-none [] ranks d h = absurd (omega arith)
item_to_rank-none (team ∷ teams) [] d h = refl
item_to_rank-none (team ∷ teams) (rank ∷ ranks) d h = item_to_rank-none teams ranks _ (omega arith)

two_ranks : (ranks : List ℤ) {r : ℤ} → get_elem? ranks 1 ≡ some r → 2 ≤ length ranks
two_ranks [] h = cc
two_ranks (rank ∷ []) h = cc
two_ranks (rank ∷ other ∷ ranks) h = omega arith

module _ (standard : Standard) {K W : Type 0} ⦃h : Hashable K⦄ ⦃d : Double W⦄ where
  rate_sorted-ranks :
      (info : GameInfo W) (sorted : List (Team K W)) (ranks : List ℤ) {results : Team K W}
      → rate_sorted standard info sorted ranks ≡ some results
      → 2 ≤ length ranks
  unfolding rate_sorted
  rate_sorted-ranks info sorted ranks rated =
      let (team1, found1, after1) = >>=-eq-some (get_elem? sorted 0) _ rated in
      let (team2, found2, after2) = >>=-eq-some (get_elem? sorted 1) _ after1 in
      let (rank1, found3, after3) = >>=-eq-some (get_elem? ranks 0) _ after2 in
      let (rank2, found4, after4) = >>=-eq-some (get_elem? ranks 1) _ after3 in
      two_ranks ranks found4

  sort-ranks :
      (teams : List (Team K W)) (ranks : List ℤ) {sorted : List (Team K W)} {sorted_ranks : List ℤ}
      → length teams ≡ 2
      → sort standard teams ranks ≡ some (sorted, sorted_ranks)
      → (2 ≤ length ranks) ⊎ (sorted_ranks ≡ ranks)
  unfolding sort
  sort-ranks teams ranks two e = elim (Bool-cases (needs_sort (pos 0) ranks)) [
    | inl falls ↦ elim (Bool-cases (ltb (length ranks) 2)) [
      | inl short ↦ absurd (ground (arith, item_to_rank-none teams ranks []))
      | inr enough ↦ inl (ground arith)
    ]
    | inr ascends ↦ inr (ground arith)
  ]

  -- CalculateNewRatings gives ratings only for exactly two teams, each of at least one player, and at
  -- least two ranks: every other call traps.
  pub calculate_new_ratings_requires :
      (info : GameInfo W) (teams : List (Team K W)) (ranks : List ℤ) {results : Team K W}
      → calculate_new_ratings standard info teams ranks ≡ some results
      → AreTwo teams × (2 ≤ length ranks)
  unfolding calculate_new_ratings validate
  calculate_new_ratings_requires info teams ranks done =
      let (ok, checks, after) =
        >>=-eq-some (checked (validate teams total_teams_allowed players_per_team_allowed)) _
          done in
      let ((sorted, sorted_ranks), sorts, rated) =
        >>=-eq-some (sort standard teams ranks) _ after in
      let (two, players) = count_teams-AreTwo 0 teams checks in
      let enough = rate_sorted-ranks info sorted sorted_ranks rated in
      let count : length teams ≡ 2 = omega arith in
      (
        (count, players),
        elim (sort-ranks teams ranks count sorts) [
          | inl many ↦ many
          | inr kept ↦ subst (λ (r : List ℤ). 2 ≤ length r) kept enough
        ],
      )
