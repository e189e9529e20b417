-- ===== src/League/Directory.antt =====
-- The handlers of LeaguePlayers.swift, by which the database reports players, with the part of
-- PlayerForm.swift that calls them, and the lookups of League.swift.
pub mod Sorted
pub mod Found
pub mod Reach
pub mod Events
pub mod Invariant
mod Tests
use league_ranker.Prelude.{ℕ, Bool, true, false, Option, none, some, if◌then◌else◌}
use league_ranker.Swift.Int.{ℤ, pos}
use league_ranker.Swift.Dictionary.{Hashable, Dictionary, get, put, remove}
use league_ranker.Swift.Sorting.{Standard}
use league_ranker.TrueSkill.Double.{Double}
use league_ranker.TrueSkill.Rating.{Rating, rating, default_game_info, default_rating}
use league_ranker.League.PlayerForm.{PlayerForm}
use league_ranker.League.Players.{LeaguePlayers, sort_players}

-- The texts that a player starts with: "User", "" and "John".
pub record Texts (S : Type 0) : Type 0 where
  pub user : S
  pub empty : S
  pub john : S

-- What `buildSelf` reads from the dictionary of a player's values.
pub record Values (S W : Type 0) : Type 0 where
  pub mu : W
  pub sigma : W
  pub display_name : S
  pub real_name : S
  pub phone_number : S
  pub wins : ℤ
  pub losses : ℤ

module _ {S W : Type 0} ⦃d : Double W⦄ where
  -- `PlayerForm.init`, with the defaults of the properties.
  unfoldable pub new_player : Texts S → S → PlayerForm S W
  new_player texts key = record {
    id = key;
    display_name = texts.user;
    phone_number = texts.empty;
    real_name = texts.john;
    rank = 1;
    rating = default_rating default_game_info;
    wins = pos 0;
    losses = pos 0;
  }

  -- `buildSelf`, without its call of `changed`.
  unfoldable pub build_self : Values S W → PlayerForm S W → PlayerForm S W
  build_self v p = record p {
    rating = rating v.mu v.sigma;
    display_name = v.display_name;
    real_name = v.real_name;
    phone_number = v.phone_number;
    wins = v.wins;
    losses = v.losses;
  }

module _ {S W : Type 0} ⦃h : Hashable S⦄ ⦃d : Double W⦄ where
  -- The handler of `.childAdded`; the league's settings may be gone, as in sortPlayers.
  unfoldable pub child_added : Option ℤ → Texts S → S → LeaguePlayers S W → LeaguePlayers S W
  unfolding new_player
  child_added none texts key s = s
  child_added (some placements) texts key s = record s {
    players = put s.players key (new_player texts key);
  }

  -- A player's object with the reported values; the object may have left `players`.
  unfoldable pub set_values :
      S → Values S W → Dictionary S (PlayerForm S W) → Dictionary S (PlayerForm S W)
  unfolding build_self
  set_values id v players = elim (get players id) [
    | none ↦ players
    | some p ↦ put players id (build_self v p)
  ]

  -- The names behind `if let p = self?.players[id]`: the entry of the id goes.
  unfoldable pub drop_id : S → LeaguePlayers S W → Dictionary S S → Dictionary S S
  drop_id id s names = elim (get s.players id) [ none ↦ names | some p ↦ remove names p.id ]

  -- `changed`, up to its call of sortPlayers.
  unfoldable pub changed : S → S → S → LeaguePlayers S W → LeaguePlayers S W
  unfolding drop_id
  changed id phone_number display_name s =
      let phones = drop_id id s s.phone_number_to_uid in
      record s {
        display_name_to_user_id = put (drop_id id s s.display_name_to_user_id) display_name id;
        phone_number_to_uid = if h.same phone_number id then phones else put phones phone_number id;
      }

  -- The handler of `.childRemoved` for a player, up to its call of sortPlayers.
  unfoldable pub drop_player : S → PlayerForm S W → LeaguePlayers S W → LeaguePlayers S W
  drop_player key p s = record s {
    players = remove s.players key;
    display_name_to_user_id = remove s.display_name_to_user_id p.display_name;
    phone_number_to_uid = remove s.phone_number_to_uid p.phone_number;
  }

  -- `player(atID:)`, `player(atDisplayName:)` and `player(atPhoneNumber:)` of League.swift.
  unfoldable pub player_at_id : LeaguePlayers S W → S → Option (PlayerForm S W)
  player_at_id s uid = get s.players uid

  unfoldable pub player_at_display_name : LeaguePlayers S W → S → Option (PlayerForm S W)
  player_at_display_name s name = elim (get s.display_name_to_user_id name) [
    | none ↦ none
    | some uid ↦ get s.players uid
  ]

  unfoldable pub player_at_phone_number : LeaguePlayers S W → S → Option (PlayerForm S W)
  player_at_phone_number s number = elim (get s.phone_number_to_uid number) [
    | none ↦ none
    | some uid ↦ get s.players uid
  ]

module _ (standard : Standard) {S W : Type 0} ⦃h : Hashable S⦄ ⦃d : Double W⦄ where
  -- The values of the player with the id arrive; `none` is a trap in sortPlayers.
  unfoldable pub report : Option ℤ → S → Values S W → LeaguePlayers S W → Option (LeaguePlayers S W)
  unfolding set_values changed
  report placements id v s =
      sort_players standard placements (
        changed id v.phone_number v.display_name (record s { players = set_values id v s.players }))

  -- The handler of `.childRemoved`.
  unfoldable pub child_removed : Option ℤ → S → LeaguePlayers S W → Option (LeaguePlayers S W)
  unfolding drop_player
  child_removed placements key s = elim (get s.players key) [
    | none ↦ some s
    | some p ↦ sort_players standard placements (drop_player key p s)
  ]
