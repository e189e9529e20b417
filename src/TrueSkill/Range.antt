-- ===== src/TrueSkill/Range.antt =====
-- Range.swift with PlayersRange.swift and TeamsRange.swift, and the check of SkillCalculator.swift on
-- the numbers of teams and players.
use league_ranker.Prelude.{ℕ, suc, ◌-◌, ◌^◌, Bool, ◌&&◌, List, [], ◌∷◌, length, if◌then◌else◌}
use league_ranker.Swift.Int.{ℤ, pos, leb_ℤ}

-- `Min` and `Max`.
pub record Range : Type 0 where
  pub minimum : ℤ
  pub maximum : ℤ

-- `Inclusive`
pub inclusive : ℤ → ℤ → Range
inclusive low high = record { minimum = low; maximum = high }

-- `Exactly`
unfoldable pub exactly : ℤ → Range
exactly value = record { minimum = value; maximum = value }

-- `AtLeast`, up to Int.max.
unfoldable pub at_least : ℤ → Range
at_least value = record { minimum = value; maximum = pos (2 ^ 63 - 1) }

-- `IsInRange`
unfoldable pub is_in_range : Range → ℤ → Bool
is_in_range range value = leb_ℤ range.minimum value && leb_ℤ value range.maximum

-- The outcome of ValidateTeamCountAndPlayersCountPerTeam: none, or an error with the range and the
-- number that its text names.
pub data Validation : Type 0 where
  valid : Validation
  invalid_range : Range → ℕ → Validation
  invalid_count : Range → ℕ → Validation

module _ {T : Type 0} where
  -- The loop, with `countOfTeams` and the check behind it.
  unfoldable pub count_teams : Range → Range → ℕ → List (List T) → Validation
  unfolding is_in_range
  count_teams total_teams players_per_team count [] =
      if is_in_range total_teams (pos count) then valid else invalid_count total_teams count
  count_teams total_teams players_per_team count (team ∷ teams) =
      if is_in_range players_per_team (pos (length team))
      then count_teams total_teams players_per_team (suc count) teams
      else invalid_range players_per_team (length team)

  -- `ValidateTeamCountAndPlayersCountPerTeam`
  unfoldable pub validate : List (List T) → Range → Range → Validation
  unfolding count_teams
  validate teams total_teams players_per_team = count_teams total_teams players_per_team 0 teams
