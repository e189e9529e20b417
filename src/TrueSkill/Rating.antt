-- ===== src/TrueSkill/Rating.antt =====
-- Rating.swift, GameInfo.swift, PairwiseComparison.swift and Team.swift.
use league_ranker.Prelude.{Bool, true, false, ◌&&◌, [], ◌∷◌, none, some, length, ◌==◌}
use league_ranker.Swift.Int.{ℤ, pos, negsuc}
use league_ranker.Swift.Dictionary.{Hashable, Dictionary, get, put}
use league_ranker.TrueSkill.Double.{Double, ◌/◌, whole}

pub record Rating (W : Type 0) : Type 0 where
  pub mean : W
  pub standard_deviation : W
  pub conservative_multiplier : W

pub record GameInfo (W : Type 0) : Type 0 where
  pub initial_mean : W
  pub initial_standard_deviation : W
  pub beta : W
  pub dynamics_factor : W
  pub draw_probability : W

pub data PairwiseComparison : Type 0 where
  lose : PairwiseComparison
  draw : PairwiseComparison
  win : PairwiseComparison

-- `rawValue`
unfoldable pub raw_value : PairwiseComparison → ℤ
raw_value PairwiseComparison.lose = negsuc 0
raw_value PairwiseComparison.draw = pos 0
raw_value PairwiseComparison.win = pos 1

-- The ratings of a team's players.
abbrev pub Team : Type 0 → Type 0 → Type 0
Team K W = Dictionary K (Rating W)

module _ {W : Type 0} ⦃d : Double W⦄ where
  -- `Rating.init`, with its default.
  unfoldable pub rating : W → W → Rating W
  rating mean deviation = record {
    mean = mean;
    standard_deviation = deviation;
    conservative_multiplier = whole 3;
  }

  -- `==` of ratings.
  unfoldable pub same_rating : Rating W → Rating W → Bool
  same_rating a b = d.eq a.mean b.mean && d.eq a.standard_deviation b.standard_deviation

  -- `DefaultGameInfo`
  pub default_game_info : GameInfo W
  default_game_info = record {
    initial_mean = d.literal 250 1;
    initial_standard_deviation = d.literal 250 1 / whole 3;
    beta = d.literal 250 1 / d.literal 60 1;
    dynamics_factor = d.literal 250 1 / d.literal 3000 1;
    draw_probability = d.literal 1 1;
  }

  -- `DefaultRating`
  pub default_rating : GameInfo W → Rating W
  unfolding rating
  default_rating info = rating info.initial_mean info.initial_standard_deviation

module _ {K W : Type 0} ⦃h : Hashable K⦄ where
  -- `AddPlayer`
  unfoldable pub add_player : Team K W → K → Rating W → Team K W
  add_player team player r = put team player r

module _ {K W : Type 0} ⦃h : Hashable K⦄ ⦃d : Double W⦄ where
  -- Whether every entry is an entry of the other dictionary.
  unfoldable pub within : Team K W → Team K W → Bool
  unfolding same_rating
  within [] other = true
  within ((k, r) ∷ team) other =
      elim (get other k) [ none ↦ false | some q ↦ same_rating r q ] && within team other

  -- `==` of dictionaries, by which a dictionary of teams tells its keys apart.
  unfoldable pub same_team : Team K W → Team K W → Bool
  unfolding within
  same_team a b = length a == length b && within a b

  instance abbrev pub teams : Hashable (Team K W)
  teams = record { same = same_team }
