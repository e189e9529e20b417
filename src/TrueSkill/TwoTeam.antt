-- ===== src/TrueSkill/TwoTeam.antt =====
-- TwoTeamTrueskillCalculator.swift, the calculator of TrueSkillCalculator.swift.
use league_ranker.Prelude.{Bool, List, map, length, if◌then◌else◌, ◌+◌ as add_ℕ}
use mathlib.Core.List.{foldl}
use league_ranker.Swift.Int.{pos}
use league_ranker.Swift.Sorting.{Standard}
use league_ranker.TrueSkill.Double.{Double, ◌+◌, ◌-◌, ◌*◌, ◌/◌, whole, square}
use league_ranker.TrueSkill.Gaussian.{draw_margin}
use league_ranker.TrueSkill.Correction.{
  v_exceeds_margin, w_exceeds_margin, v_within_margin, w_within_margin,
}
use league_ranker.TrueSkill.Range.{Range, exactly, at_least}
use league_ranker.TrueSkill.Rating.{
  Rating, GameInfo, PairwiseComparison, lose, draw, win, raw_value, Team, rating, teams,
}

-- What a run of UpdatePlayerRatings computes before its loop over the players.
pub record Update (W : Type 0) : Type 0 where
  pub tau_squared : W
  pub c : W
  pub v : W
  pub w : W
  pub rank_multiplier : W

-- `_PlayersPerTeamAllowed` and `_TotalTeamsAllowed`.
unfoldable pub players_per_team_allowed : Range
unfolding at_least
players_per_team_allowed = at_least (pos 1)

unfoldable pub total_teams_allowed : Range
unfolding exactly
total_teams_allowed = exactly (pos 2)

-- `winnerComparison` and `loserComparison`
unfoldable pub winner_comparison : Bool → PairwiseComparison
winner_comparison was_draw = if was_draw then draw else win

unfoldable pub loser_comparison : Bool → PairwiseComparison
loser_comparison was_draw = if was_draw then draw else lose

module _ {W : Type 0} ⦃d : Double W⦄ where
  -- `reduce(0, +)`
  pub sum : List W → W
  sum = foldl ◌+◌ (whole 0)

  -- `winningMean - losingMean`
  pub mean_delta : PairwiseComparison → W → W → W
  mean_delta win self_sum other_sum = self_sum - other_sum
  mean_delta draw self_sum other_sum = self_sum - other_sum
  mean_delta lose self_sum other_sum = other_sum - self_sum

  -- `v`, `w` and `rankMultiplier`
  pub corrections : PairwiseComparison → W → W → W → W × W × W
  unfolding raw_value
  corrections draw delta margin c =
      (v_within_margin delta margin c, w_within_margin delta margin c, whole 1)
  corrections other delta margin c =
      (v_exceeds_margin delta margin c, w_exceeds_margin delta margin c, d.of_int (raw_value other))

  -- The new rating of a player, the body of the loop.
  pub new_rating : Update W → Rating W → Rating W
  unfolding square rating
  new_rating u previous =
      let mean_multiplier = (square previous.standard_deviation + u.tau_squared) / u.c in
      let std_dev_multiplier = (square previous.standard_deviation + u.tau_squared) / square u.c in
      let player_mean_delta = u.rank_multiplier * mean_multiplier * u.v in
      let new_mean = previous.mean + player_mean_delta in
      let new_std_dev = d.sqrt (
        (square previous.standard_deviation + u.tau_squared)
        * (whole 1 - u.w * std_dev_multiplier)) in
      rating new_mean new_std_dev

module _ (standard : Standard) {K W : Type 0} ⦃d : Double W⦄ where
  -- `values`
  pub values : Team K W → List (Rating W)
  values team = map (λ (e : K × Rating W). e.1) (standard.entries K (Rating W) team)

  pub mean_sum : Team K W → W
  unfolding values sum
  mean_sum team = sum (map (λ (r : Rating W). r.mean) (values team))

  pub variance_sum : Team K W → W
  unfolding values sum square
  variance_sum team = sum (map (λ (r : Rating W). square r.standard_deviation) (values team))

  pub update_of : GameInfo W → Team K W → Team K W → PairwiseComparison → Update W
  unfolding mean_sum variance_sum mean_delta corrections
  update_of info self_team other_team comparison =
      let margin = draw_margin info.draw_probability info.beta in
      let beta_squared = square info.beta in
      let tau_squared = square info.dynamics_factor in
      let total_players = d.of_int (pos (add_ℕ (length self_team) (length other_team))) in
      let x = variance_sum self_team in
      let y = variance_sum other_team in
      let c = d.sqrt (x + y + total_players * beta_squared) in
      let delta = mean_delta comparison (mean_sum self_team) (mean_sum other_team) in
      let (v, w, rank_multiplier) = corrections comparison delta margin c in
      record { tau_squared = tau_squared; c = c; v = v; w = w; rank_multiplier = rank_multiplier }
