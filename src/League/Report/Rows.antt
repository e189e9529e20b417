-- ===== src/League/Report/Rows.antt =====
-- The loop of getDictionary over the players of a game.
use mathlib.Core.Path.{subst}
use league_ranker.Prelude.{
  ◌≡◌, refl, ◌∙◌, false, List, [], ◌∷◌, Option, none, some, map, All, get_elem?, Bool-cases, inl,
  inr, ap,
}
use league_ranker.Swift.Int.{ℤ}
use league_ranker.Swift.Dictionary.{Hashable, IsEquality, Dictionary, get}
use league_ranker.Swift.Entries.{IsDictionary, get-absent}
use league_ranker.TrueSkill.Double.{Double}
use league_ranker.TrueSkill.Rating.{Rating}
use league_ranker.League.PlayerForm.{PlayerForm}
use league_ranker.League.Games.{Keys, Game, Entry, to_any_object}
use league_ranker.League.Report.{Place, Change, places, has_won, change_player, change_players}
use league_ranker.League.Report.Fields.{change_at, before, get-change_player}

-- A player of a game with the new rating.
abbrev pub Row : Type 0 → Type 0 → Type 0
Row S W = S × (PlayerForm S W × Rating W)

pub before-none : {A : Type 0} (x : Option A) → before x none ≡ x
before-none none = refl
before-none (some x) = refl

module _ {U S W : Type 0} ⦃u : Hashable U⦄ ⦃h : Hashable S⦄ ⦃d : Double W⦄ where
  -- The entry of the update at a path whose owner is that player of a game, if any.
  abbrev pub row_change :
      Game U S
      → Dictionary S (Entry S)
      → ℤ
      → ℤ
      → Place U S
      → Option (PlayerForm S W × Rating W)
      → Option (Change S W)
  row_change g game score1 score2 at none = none
  row_change g game score1 score2 at (some (player, r)) =
      change_at g.id game player r (has_won g at.owner score1 score2) at.field

  -- The same among the players of a game.
  abbrev pub rows_change :
      Game U S → Dictionary S (Entry S) → ℤ → ℤ → List (Row S W) → Place U S → Option (Change S W)
  rows_change g game score1 score2 rows at = row_change g game score1 score2 at (get rows at.owner)

  rows_change_cons :
      (v : IsEquality U) (e : IsEquality S) (g : Game U S) (game : Dictionary S (Entry S))
      (score1 score2 : ℤ) (uid : S) (player : PlayerForm S W) (r : Rating W) (rows : List (Row S W))
      (ret : Dictionary (Place U S) (Change S W)) (at : Place U S)
      → All (λ (row : Row S W). h.same uid row.0 ≡ false) rows
      → before
          (rows_change g game score1 score2 rows at)
          (get (change_player g.id game uid player r (has_won g uid score1 score2) ret) at)
        ≡ before (rows_change g game score1 score2 ((uid, (player, r)) ∷ rows) at) (get ret at)
  unfolding get
  rows_change_cons v e g game score1 score2 uid player r rows ret at once =
      let step =
        get-change_player v e g.id game uid player r (has_won g uid score1 score2) ret at in
      elim (Bool-cases (h.same uid at.owner)) [
        | inl here ↦
            let same = (e.same_iff uid at.owner).0 here in
            let absent : get rows at.owner ≡ none =
              subst (λ k. get rows k ≡ none) same (get-absent e rows uid once) in
            let won = ap (λ k. has_won g k score1 score2) same in rw (step, here, absent, won) refl
        | inr other ↦ rw (step, other) refl
      ]

  module _ (v : IsEquality U) (e : IsEquality S) (keys : Keys S)
      (players : Dictionary S (PlayerForm S W)) (g : Game U S) (game : Dictionary S (Entry S))
      (score1 score2 : ℤ) (writes : to_any_object keys g ≡ some game)
      (first : get_elem? g.scores 0 ≡ some score1)
      (second : get_elem? g.scores 1 ≡ some score2) where
    pub change_players_lem :
        (rows : List (Row S W)) (ret : Dictionary (Place U S) (Change S W))
        → IsDictionary rows
        → All (λ (row : Row S W). get players row.0 ≡ some row.1.0) rows
        → (ret' : Dictionary (Place U S) (Change S W)) × (change_players keys players g
              (map (λ (row : Row S W). row.0) rows)
              (map (λ (row : Row S W). row.1.1) rows)
              ret
            ≡ some ret')
          × ((at : Place U S)
              → get ret' at ≡ before (rows_change g game score1 score2 rows at) (get ret at))
    unfolding change_players get
    change_players_lem [] ret once found = (ret, refl, λ at. refl)
    change_players_lem ((uid, (player, r)) ∷ rows) ret once found =
        let won = has_won g uid score1 score2 in
        let ret1 = change_player g.id game uid player r won ret in
        let (ret', done, all) = change_players_lem rows ret1 once.1 found.1 in
        (
          ret',
          rw (found.0, writes, first, second) done,
          λ at. all at ∙ rows_change_cons v e g game score1 score2 uid player r rows ret at once.0,
        )
