-- ===== src/League/Report.antt =====
-- getDictionary(forGame:) of LeaguePlayers.swift: what a game writes to the database for its players.
pub mod Fields
pub mod Rows
pub mod Exact
mod Tests
use league_ranker.Prelude.{
  Bool, true, false, ◌&&◌, ◌||◌, List, [], ◌∷◌, ◌++◌, Option, none, some, get_elem?, if◌then◌else◌,
}
use league_ranker.Swift.Int.{ℤ, pos, ◌+ℤ◌, ltb_ℤ}
use league_ranker.Swift.Dictionary.{Hashable, Dictionary, get, put}
use league_ranker.Swift.Sorting.{Standard}
use league_ranker.TrueSkill.Double.{Double, ◌-◌}
use league_ranker.TrueSkill.Rating.{Rating}
use league_ranker.TrueSkill.Calculator.{◌>>=◌, get_new_ratings}
use league_ranker.League.PlayerForm.{PlayerForm}
use league_ranker.League.Autocomplete.{contains}
use league_ranker.League.Games.{Keys, Game, Entry, to_any_object}

-- What stands behind "/players/objects/", an id and "/": "values/mu" and so on, and "games/" with the
-- id of a game.
pub data PlayerField (U : Type 0) : Type 0 where
  mu : PlayerField U
  sigma : PlayerField U
  wins : PlayerField U
  losses : PlayerField U
  played : U → PlayerField U

-- The path of a player's field.
pub record Place (U S : Type 0) : Type 0 where
  pub owner : S
  pub field : PlayerField U

-- A value of the update; that of a game is PlayerGame's toAnyObject.
pub data Change (S W : Type 0) : Type 0 where
  amount : W → Change S W
  count : ℤ → Change S W
  player_game : Dictionary S (Entry S) → W → W → Change S W

module _ {U : Type 0} ⦃u : Hashable U⦄ where
  unfoldable pub same_field : PlayerField U → PlayerField U → Bool
  same_field PlayerField.mu PlayerField.mu = true
  same_field PlayerField.sigma PlayerField.sigma = true
  same_field PlayerField.wins PlayerField.wins = true
  same_field PlayerField.losses PlayerField.losses = true
  same_field (PlayerField.played a) (PlayerField.played b) = u.same a b
  same_field a b = false

module _ {U S : Type 0} ⦃u : Hashable U⦄ ⦃h : Hashable S⦄ where
  unfoldable pub same_place : Place U S → Place U S → Bool
  same_place a b = h.same a.owner b.owner && same_field a.field b.field

  instance abbrev pub places : Hashable (Place U S)
  places = record { same = same_place }

module _ {U S : Type 0} where
  abbrev pub place_of : S → PlayerField U → Place U S
  place_of uid field = record { owner = uid; field = field }

module _ {U S : Type 0} ⦃h : Hashable S⦄ where
  -- Whether the player won, from the scores of the teams.
  unfoldable pub has_won : Game U S → S → ℤ → ℤ → Bool
  has_won g uid score1 score2 =
      contains g.team1 uid && ltb_ℤ score2 score1 || contains g.team2 uid && ltb_ℤ score1 score2

module _ {U S W : Type 0} ⦃u : Hashable U⦄ ⦃h : Hashable S⦄ ⦃d : Double W⦄ where
  -- The entries of a player, of whom `game` is the dictionary of the game.
  unfoldable pub change_player :
      U
      → Dictionary S (Entry S)
      → S
      → PlayerForm S W
      → Rating W
      → Bool
      → Dictionary (Place U S) (Change S W)
      → Dictionary (Place U S) (Change S W)
  change_player id game uid player r won ret =
      let score = r.mean - player.rating.mean in
      let spread = r.standard_deviation - player.rating.standard_deviation in
      let rated = put ret (place_of uid mu) (amount r.mean) in
      let rated' = put rated (place_of uid sigma) (amount r.standard_deviation) in
      let listed = put rated' (place_of uid (played id)) (player_game game score spread) in
      if won
      then put listed (place_of uid wins) (count (player.wins +ℤ pos 1))
      else put listed (place_of uid losses) (count (player.losses +ℤ pos 1))

module _ {S W : Type 0} ⦃h : Hashable S⦄ where
  -- `ratingsBefore`; `none` where a player is missing.
  unfoldable pub ratings_before : Dictionary S (PlayerForm S W) → List S → Option (List (Rating W))
  ratings_before players [] = some []
  ratings_before players (uid ∷ uids) = do
    player ← get players uid
    ratings ← ratings_before players uids
    some (player.rating ∷ ratings)

module _ {U S W : Type 0} ⦃u : Hashable U⦄ ⦃h : Hashable S⦄ ⦃d : Double W⦄ (keys : Keys S) where
  -- The loop over the players and their new ratings.
  unfoldable pub change_players :
      Dictionary S (PlayerForm S W)
      → Game U S
      → List S
      → List (Rating W)
      → Dictionary (Place U S) (Change S W)
      → Option (Dictionary (Place U S) (Change S W))
  unfolding change_player has_won
  change_players players g [] ratings ret = some ret
  change_players players g (uid ∷ uids) [] ret = none
  change_players players g (uid ∷ uids) (r ∷ ratings) ret = do
    player ← get players uid
    game ← to_any_object keys g
    score1 ← get_elem? g.scores 0
    score2 ← get_elem? g.scores 1
    change_players players g uids ratings
        (change_player g.id game uid player r (has_won g uid score1 score2) ret)

module _ (standard : Standard) {U S W : Type 0} ⦃u : Hashable U⦄ ⦃h : Hashable S⦄ ⦃d : Double W⦄
    (keys : Keys S) where
  -- `getDictionary(forGame:)`: `some none` is its nil, and `none` a trap.
  unfoldable pub get_dictionary :
      Dictionary S (PlayerForm S W)
      → Game U S
      → Option (Option (Dictionary (Place U S) (Change S W)))
  unfolding ratings_before change_players
  get_dictionary players g =
      let uids = g.team1 ++ g.team2 in
      elim (ratings_before players uids) [
        | none ↦ some none
        | some ratings ↦ do
          new_ratings ← get_new_ratings standard uids g.scores ratings
          ret ← change_players keys players g uids new_ratings []
          some (some ret)
      ]
