-- ===== src/League/Report/Fields.antt =====
-- The paths of an update, and what a player's entries are under them.
use league_ranker.Prelude.{
  ◌≡◌, refl, ◌∙◌, ◌↔◌, Bool, true, false, Option, none, some, arith, if◌then◌else◌,
}
use league_ranker.Swift.Int.{pos, ◌+ℤ◌}
use league_ranker.Swift.Dictionary.{Hashable, IsEquality, Dictionary, get, get-put}
use league_ranker.TrueSkill.Double.{Double, ◌-◌}
use league_ranker.TrueSkill.Rating.{Rating}
use league_ranker.League.PlayerForm.{PlayerForm}
use league_ranker.League.Games.{Entry}
use league_ranker.League.Report.{
  PlayerField, mu, sigma, wins, losses, played, Place, Change, amount, count, player_game,
  same_field, same_place, places, place_of, change_player,
}

module _ {U : Type 0} ⦃u : Hashable U⦄ (v : IsEquality U) where
  same_field_iff : (a b : PlayerField U) → (same_field a b ≡ true) ↔ (a ≡ b)
  unfolding same_field
  same_field_iff PlayerField.mu PlayerField.mu = ground arith
  same_field_iff PlayerField.mu PlayerField.sigma = ground arith
  same_field_iff PlayerField.mu PlayerField.wins = ground arith
  same_field_iff PlayerField.mu PlayerField.losses = ground arith
  same_field_iff PlayerField.mu (PlayerField.played j) = ground arith
  same_field_iff PlayerField.sigma PlayerField.mu = ground arith
  same_field_iff PlayerField.sigma PlayerField.sigma = ground arith
  same_field_iff PlayerField.sigma PlayerField.wins = ground arith
  same_field_iff PlayerField.sigma PlayerField.losses = ground arith
  same_field_iff PlayerField.sigma (PlayerField.played j) = ground arith
  same_field_iff PlayerField.wins PlayerField.mu = ground arith
  same_field_iff PlayerField.wins PlayerField.sigma = ground arith
  same_field_iff PlayerField.wins PlayerField.wins = ground arith
  same_field_iff PlayerField.wins PlayerField.losses = ground arith
  same_field_iff PlayerField.wins (PlayerField.played j) = ground arith
  same_field_iff PlayerField.losses PlayerField.mu = ground arith
  same_field_iff PlayerField.losses PlayerField.sigma = ground arith
  same_field_iff PlayerField.losses PlayerField.wins = ground arith
  same_field_iff PlayerField.losses PlayerField.losses = ground arith
  same_field_iff PlayerField.losses (PlayerField.played j) = ground arith
  same_field_iff (PlayerField.played i) PlayerField.mu = ground arith
  same_field_iff (PlayerField.played i) PlayerField.sigma = ground arith
  same_field_iff (PlayerField.played i) PlayerField.wins = ground arith
  same_field_iff (PlayerField.played i) PlayerField.losses = ground arith
  same_field_iff (PlayerField.played i) (PlayerField.played j) = ground (arith, v.same_iff i j)

module _ {U S : Type 0} ⦃u : Hashable U⦄ ⦃h : Hashable S⦄ (v : IsEquality U)
    (e : IsEquality S) where
  pub places-IsEquality : IsEquality (Place U S)
  unfolding same_place
  places-IsEquality = record {
    same_iff = λ a b. ground (arith, same_field_iff v a.field b.field, e.same_iff a.owner b.owner);
  }

module _ {U S W : Type 0} ⦃u : Hashable U⦄ ⦃d : Double W⦄ where
  -- The entry of a player under a field, if any.
  abbrev pub change_at :
      U
      → Dictionary S (Entry S)
      → PlayerForm S W
      → Rating W
      → Bool
      → PlayerField U
      → Option (Change S W)
  change_at id game player r won PlayerField.mu = some (amount r.mean)
  change_at id game player r won PlayerField.sigma = some (amount r.standard_deviation)
  change_at id game player r won PlayerField.wins =
      if won then some (count (player.wins +ℤ pos 1)) else none
  change_at id game player r won PlayerField.losses =
      if won then none else some (count (player.losses +ℤ pos 1))
  change_at id game player r won (PlayerField.played other) =
      if u.same id other
      then some (
          player_game game (r.mean - player.rating.mean)
            (r.standard_deviation - player.rating.standard_deviation))
      else none

-- The first value, or else the second one.
abbrev pub before : {A : Type 0} → Option A → Option A → Option A
before none y = y
before (some x) y = some x

module _ {U S W : Type 0} ⦃u : Hashable U⦄ ⦃h : Hashable S⦄ ⦃d : Double W⦄ where
  -- A player's entries from the last one back.
  changes :
      (v : IsEquality U) (e : IsEquality S) (id : U) (game : Dictionary S (Entry S)) (uid : S)
      (player : PlayerForm S W) (r : Rating W) (won : Bool)
      (ret : Dictionary (Place U S) (Change S W)) (at : Place U S)
      → get (change_player id game uid player r won ret) at ≡ (
          if same_place (place_of uid (if won then wins else losses)) at
          then some (count ((if won then player.wins else player.losses) +ℤ pos 1))
          else if same_place (place_of uid (played id)) at
          then some (
              player_game game
                (r.mean - player.rating.mean)
                (r.standard_deviation - player.rating.standard_deviation))
          else if same_place (place_of uid sigma) at
          then some (amount r.standard_deviation)
          else if same_place (place_of uid mu) at
          then some (amount r.mean)
          else get ret at)
  unfolding change_player
  changes v e id game uid player r true ret at =
      let p : IsEquality (Place U S) = places-IsEquality v e in
      rw
        (
          get-put p _ (place_of uid wins) at _,
          get-put p _ (place_of uid (played id)) at _,
          get-put p _ (place_of uid sigma) at _,
          get-put p _ (place_of uid mu) at _,
        )
        refl
  changes v e id game uid player r false ret at =
      let p : IsEquality (Place U S) = places-IsEquality v e in
      rw
        (
          get-put p _ (place_of uid losses) at _,
          get-put p _ (place_of uid (played id)) at _,
          get-put p _ (place_of uid sigma) at _,
          get-put p _ (place_of uid mu) at _,
        )
        refl

  at_field :
      (id : U) (game : Dictionary S (Entry S)) (uid : S) (player : PlayerForm S W) (r : Rating W)
      (won : Bool) (old : Option (Change S W)) (owner : S) (field : PlayerField U)
      → (if same_place (place_of uid (if won then wins else losses)) (place_of owner field)
          then some (count ((if won then player.wins else player.losses) +ℤ pos 1))
          else if same_place (place_of uid (played id)) (place_of owner field)
          then some (
              player_game game
                (r.mean - player.rating.mean)
                (r.standard_deviation - player.rating.standard_deviation))
          else if same_place (place_of uid sigma) (place_of owner field)
          then some (amount r.standard_deviation)
          else if same_place (place_of uid mu) (place_of owner field)
          then some (amount r.mean)
          else old)
        ≡ (if h.same uid owner then before (change_at id game player r won field) old else old)
  unfolding same_place same_field
  at_field id game uid player r true old owner PlayerField.mu = ground arith
  at_field id game uid player r true old owner PlayerField.sigma = ground arith
  at_field id game uid player r true old owner PlayerField.wins = ground arith
  at_field id game uid player r true old owner PlayerField.losses = ground arith
  at_field id game uid player r true old owner (PlayerField.played j) = ground arith
  at_field id game uid player r false old owner PlayerField.mu = ground arith
  at_field id game uid player r false old owner PlayerField.sigma = ground arith
  at_field id game uid player r false old owner PlayerField.wins = ground arith
  at_field id game uid player r false old owner PlayerField.losses = ground arith
  at_field id game uid player r false old owner (PlayerField.played j) = ground arith

  pub get-change_player :
      (v : IsEquality U) (e : IsEquality S) (id : U) (game : Dictionary S (Entry S)) (uid : S)
      (player : PlayerForm S W) (r : Rating W) (won : Bool)
      (ret : Dictionary (Place U S) (Change S W)) (at : Place U S)
      → get (change_player id game uid player r won ret) at ≡ (
          if h.same uid at.owner
          then before (change_at id game player r won at.field) (get ret at)
          else get ret at)
  get-change_player v e id game uid player r won ret at =
      changes v e id game uid player r won ret at
      ∙ at_field id game uid player r won (get ret at) at.owner at.field
