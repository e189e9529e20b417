-- ===== src/League/Directory/Reach.antt =====
-- The runs of the handlers: the events of the database, one after the other.
use league_ranker.Prelude.{◌≡◌, Bool, true, false, Option, some, if◌then◌else◌, []}
use league_ranker.Swift.Int.{ℤ}
use league_ranker.Swift.Dictionary.{Hashable, get}
use league_ranker.Swift.Sorting.{Standard}
use league_ranker.TrueSkill.Double.{Double}
use league_ranker.League.PlayerForm.{PlayerForm}
use league_ranker.League.Players.{LeaguePlayers}
use league_ranker.League.Directory.{Texts, Values, child_added, child_removed, report}

-- The ids of the players whose values have arrived.
abbrev pub Seen : Type 0 → Type 0
Seen S = S → Bool

abbrev pub mark : {S : Type 0} ⦃h : Hashable S⦄ → S → Bool → Seen S → Seen S
mark ⦃h⦄ id value seen j = if h.same id j then value else seen j

module _ {S W : Type 0} ⦃h : Hashable S⦄ where
  -- No other player whose values have arrived has the name.
  abbrev pub IsFree : LeaguePlayers S W → Seen S → S → S → Type 0
  IsFree s seen id name =
      (j : S) (q : PlayerForm S W)
      → seen j ≡ true
      → h.same id j ≡ false
      → get s.players j ≡ some q
      → h.same name q.display_name ≡ false

-- `LeaguePlayers.init`
unfoldable pub nobody : {S W : Type 0} → LeaguePlayers S W
nobody = record {
  sorted_players = [];
  phone_number_to_uid = [];
  display_name_to_user_id = [];
  players = [];
}

module _ (standard : Standard) {S W : Type 0} ⦃h : Hashable S⦄ ⦃d : Double W⦄ where
  -- The events of the database, in any order: a player is added; values arrive whose display name is
  -- no other player's, and of which no display name is the player's id; a player is removed whose
  -- display name is no other player's. The number of placements may change between them.
  pub data Step (s : LeaguePlayers S W) (seen : Seen S) (s' : LeaguePlayers S W) (seen' : Seen S)
      : Type 0 where
    added :
        (placements : Option ℤ) (texts : Texts S) (key : S)
        → s' ≡ child_added placements texts key s
        → seen' ≡ mark key false seen
        → Step s seen s' seen'
    reported :
        (placements : Option ℤ) (id : S) (v : Values S W)
        → IsFree s seen id v.display_name
        → IsFree s seen id id
        → report standard placements id v s ≡ some s'
        → seen' ≡ mark id true seen
        → Step s seen s' seen'
    removed :
        (placements : Option ℤ) (key : S)
        → ((p : PlayerForm S W) → get s.players key ≡ some p → IsFree s seen key p.display_name)
        → child_removed standard placements key s ≡ some s'
        → seen' ≡ mark key false seen
        → Step s seen s' seen'

  -- A league without players, and what the events make of it.
  pub data Reach : LeaguePlayers S W → Seen S → Type 0 where
    start :
        {s : LeaguePlayers S W} {seen : Seen S} → s ≡ nobody → seen ≡ (λ _. false) → Reach s seen
    next :
        {s t : LeaguePlayers S W} {before seen : Seen S}
        → Reach t before
        → Step t before s seen
        → Reach s seen
