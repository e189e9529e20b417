-- ===== src/TrueSkill/Calculator.antt =====
-- CalculateNewRatings and CalculateMatchQuality of TwoTeamTrueskillCalculator.swift, to which
-- TrueSkillCalculator.swift passes its calls, and Functions.swift. `none` is a trap: `try!` on an
-- error, an index out of range or a missing key.
pub mod Exact
pub mod Game
pub mod Traps
use league_ranker.Prelude.{
  Bool, true, false, List, [], ◌∷◌, Option, none, some, get_elem?, length, if◌then◌else◌,
  ◌+◌ as add_ℕ,
}
use league_ranker.Swift.Int.{ℤ, pos, eq_ℤ, ltb_ℤ}
use league_ranker.Swift.Dictionary.{Hashable, Dictionary, get, put}
use league_ranker.Swift.Sorting.{Standard}
use league_ranker.TrueSkill.Double.{Double, ◌+◌, ◌-◌, ◌*◌, ◌/◌, whole, square}
use league_ranker.TrueSkill.Range.{Range, Validation, valid, invalid_range, invalid_count, validate}
use league_ranker.TrueSkill.Rating.{
  Rating, GameInfo, PairwiseComparison, Team, default_game_info, add_player,
  teams as teams_hashable,
}
use league_ranker.TrueSkill.RankSorter.{sort}
use league_ranker.TrueSkill.TwoTeam.{
  Update, players_per_team_allowed, total_teams_allowed, winner_comparison, loser_comparison,
  new_rating, update_of, mean_sum, variance_sum,
}

infixl 5 ◌>>=◌
abbrev pub ◌>>=◌ : {A B : Type 0} → Option A → (A → Option B) → Option B
none >>= f = none
some a >>= f = f a

last : {A : Type 0} → List A → Option A
last [] = none
last (x ∷ []) = some x
last (x ∷ y ∷ xs) = last (y ∷ xs)

-- `try!` on the check of the teams.
abbrev pub checked : Validation → Option (Unit {0})
checked valid = some tt
checked (invalid_range range count) = none
checked (invalid_count range count) = none

module _ {K W : Type 0} ⦃h : Hashable K⦄ ⦃d : Double W⦄ where
  -- The loop of UpdatePlayerRatings over the entries of a team.
  unfoldable pub update_all : Update W → List (K × Rating W) → Team K W → Team K W
  update_all u [] results = results
  update_all u ((player, previous) ∷ entries) results =
      update_all u entries (put results player (new_rating u previous))

module _ (standard : Standard) {K W : Type 0} ⦃h : Hashable K⦄ ⦃d : Double W⦄ where
  unfoldable pub update_player_ratings :
      GameInfo W → Team K W → Team K W → Team K W → PairwiseComparison → Team K W
  unfolding update_all
  update_player_ratings info results self_team other_team comparison =
      update_all (update_of standard info self_team other_team comparison)
        (standard.entries K (Rating W) self_team) results

  -- The part of CalculateNewRatings behind the sorting.
  unfoldable pub rate_sorted : GameInfo W → List (Team K W) → List ℤ → Option (Team K W)
  unfolding update_player_ratings winner_comparison loser_comparison
  rate_sorted info sorted sorted_ranks = do
    team1 ← get_elem? sorted 0
    team2 ← get_elem? sorted 1
    rank1 ← get_elem? sorted_ranks 0
    rank2 ← get_elem? sorted_ranks 1
    let was_draw = eq_ℤ rank1 rank2
    let results = update_player_ratings info [] team1 team2 (winner_comparison was_draw)
    some (update_player_ratings info results team2 team1 (loser_comparison was_draw))

  -- `CalculateNewRatings`
  unfoldable pub calculate_new_ratings : GameInfo W → List (Team K W) → List ℤ → Option (Team K W)
  unfolding rate_sorted validate players_per_team_allowed total_teams_allowed sort
  calculate_new_ratings info teams ranks = do
    ok ← checked (validate teams total_teams_allowed players_per_team_allowed)
    (sorted, sorted_ranks) ← sort standard teams ranks
    rate_sorted info sorted sorted_ranks

  quality : GameInfo W → Team K W → Team K W → W
  quality info team1 team2 =
      let total_players : W = d.of_int (pos (add_ℕ (length team1) (length team2))) in
      let beta_squared = square info.beta in
      let spread =
        total_players * beta_squared + variance_sum standard team1 + variance_sum standard team2 in
      let sqrt_part = d.sqrt (total_players * beta_squared / spread) in
      let exp_part = d.exp (
        d.neg (whole 1)
        * square (mean_sum standard team1 - mean_sum standard team2)
        / (whole 2 * spread)) in
      exp_part * sqrt_part

  -- `CalculateMatchQuality`, with `teams.first!` and `teams.last!`.
  pub calculate_match_quality : GameInfo W → List (Team K W) → Option W
  unfolding quality validate players_per_team_allowed total_teams_allowed last
  calculate_match_quality info teams = do
    ok ← checked (validate teams total_teams_allowed players_per_team_allowed)
    team1 ← get_elem? teams 0
    team2 ← last teams
    some (quality info team1 team2)

  -- `getNewRatings`
  unfoldable pub get_new_ratings : List K → List ℤ → List (Rating W) → Option (List (Rating W))
  unfolding add_player
  get_new_ratings players scores ratings = do
    player1 ← get_elem? players 0
    player2 ← get_elem? players 1
    player3 ← get_elem? players 2
    player4 ← get_elem? players 3
    rating1 ← get_elem? ratings 0
    rating2 ← get_elem? ratings 1
    rating3 ← get_elem? ratings 2
    rating4 ← get_elem? ratings 3
    let team1 : Team K W = add_player (add_player [] player1 rating1) player2 rating2
    let team2 : Team K W = add_player (add_player [] player3 rating3) player4 rating4
    score1 ← get_elem? scores 0
    score2 ← get_elem? scores 1
    let ranks : List ℤ = if ltb_ℤ score2 score1 then pos 1 ∷ pos 2 ∷ [] else pos 2 ∷ pos 1 ∷ []
    new_ratings ← calculate_new_ratings default_game_info (team1 ∷ team2 ∷ []) ranks
    new1 ← get new_ratings player1
    new2 ← get new_ratings player2
    new3 ← get new_ratings player3
    new4 ← get new_ratings player4
    some (new1 ∷ new2 ∷ new3 ∷ new4 ∷ [])
