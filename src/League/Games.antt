-- ===== src/League/Games.antt =====
-- Game.swift: a game and its form in the database.
pub mod Parts
pub mod RoundTrip
pub mod Sample
mod Tests
use mathlib.Core.List.{foldl}
use league_ranker.Prelude.{
  ℕ, Bool, true, false, List, [], ◌∷◌, ◌++◌, Option, none, some, get_elem?, if◌then◌else◌,
}
use league_ranker.Swift.Int.{ℤ, pos, ltb_ℤ}
use league_ranker.Swift.Dictionary.{Hashable, Dictionary, get, put}
use league_ranker.Swift.Sorting.{Standard}

-- Strings, as far as a game's keys need them: "inputter", "date", "\(n)" and `Int(s)`.
pub record Keys (S : Type 0) : Type 0 where
  pub inputter : S
  pub date : S
  pub nothing : S
  pub description : ℤ → S
  pub int_of : S → Option ℤ

-- `id` is a UUID; `U` stands for those.
pub record Game (U S : Type 0) : Type 0 where
  pub id : U
  pub team1 : List S
  pub team2 : List S
  pub scores : List ℤ
  pub date : ℤ
  pub inputter : S

-- What stands under a key of the dictionary of a game.
pub data Entry (S : Type 0) : Type 0 where
  text : S → Entry S
  number : ℤ → Entry S
  names : List S → Entry S

infixl 5 ◌>>=◌
abbrev pub ◌>>=◌ : {A B : Type 0} → Option A → (A → Option B) → Option B
none >>= f = none
some a >>= f = f a

-- The variables of `init?(gameDict:)`.
pub record Reading (S : Type 0) : Type 0 where
  pub scores : List ℤ
  pub teams : List (List S)
  pub inputter : S
  pub date : ℤ

-- The casts `as! String`, `as! Int` and `as! [String]`; `none` is a trap.
abbrev pub as_text : {S : Type 0} → Entry S → Option S
as_text (text s) = some s
as_text other = none

abbrev pub as_number : {S : Type 0} → Entry S → Option ℤ
as_number (number n) = some n
as_number other = none

abbrev pub as_names : {S : Type 0} → Entry S → Option (List S)
as_names (names xs) = some xs
as_names other = none

module _ {S : Type 0} ⦃h : Hashable S⦄ (keys : Keys S) where
  -- A round of the loop.
  unfoldable pub read_entry : Reading S → S × Entry S → Option (Reading S)
  read_entry r (key, value) =
      if h.same key keys.inputter
      then (do s ← as_text value; some (record r { inputter = s }))
      else if h.same key keys.date
      then (do n ← as_number value; some (record r { date = n }))
      else do
        n ← keys.int_of key
        display_names ← as_names value
        p1 ← get_elem? display_names 0
        p2 ← get_elem? display_names 1
        some (record r { scores = r.scores ++ n ∷ []; teams = r.teams ++ (p1 ∷ p2 ∷ []) ∷ [] })

  unfoldable pub read_entries : List (S × Entry S) → Reading S → Option (Reading S)
  unfolding read_entry
  read_entries [] r = some r
  read_entries (entry ∷ entries) r = do r' ← read_entry r entry; read_entries entries r'

  unfoldable pub new_reading : Reading S
  new_reading = record { scores = []; teams = []; inputter = keys.nothing; date = pos 0 }

module _ {S : Type 0} ⦃h : Hashable S⦄ where
  -- A dictionary literal, which traps where a key stands twice.
  unfoldable pub literal :
      List (S × Entry S) → Dictionary S (Entry S) → Option (Dictionary S (Entry S))
  literal [] d = some d
  literal ((key, value) ∷ entries) d = elim (get d key) [
    | none ↦ literal entries (put d key value)
    | some old ↦ none
  ]

module _ (standard : Standard) {U S : Type 0} ⦃h : Hashable S⦄ (keys : Keys S) where
  -- `init?(gameDict:id:)`, which never fails but may trap.
  unfoldable pub from_dictionary : Dictionary S (Entry S) → U → Option (Game U S)
  unfolding read_entries new_reading
  from_dictionary game_dict id = do
    r ← read_entries keys (standard.entries S (Entry S) game_dict) (new_reading keys)
    team1 ← get_elem? r.teams 0
    team2 ← get_elem? r.teams 1
    some (record {
      id = id;
      team1 = team1;
      team2 = team2;
      scores = r.scores;
      date = r.date;
      inputter = r.inputter;
    })

module _ {U S : Type 0} ⦃h : Hashable S⦄ (keys : Keys S) where
  -- `toAnyObject`
  unfoldable pub to_any_object : Game U S → Option (Dictionary S (Entry S))
  unfolding literal
  to_any_object g = do
    score1 ← get_elem? g.scores 0
    a ← get_elem? g.team1 0
    b ← get_elem? g.team1 1
    score2 ← get_elem? g.scores 1
    c ← get_elem? g.team2 0
    e ← get_elem? g.team2 1
    literal
        ((keys.description score1, names (a ∷ b ∷ []))
          ∷ (keys.description score2, names (c ∷ e ∷ []))
          ∷ (keys.inputter, text g.inputter)
          ∷ (keys.date, number g.date)
          ∷ [])
        []
