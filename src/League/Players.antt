-- ===== src/League/Players.antt =====
-- LeaguePlayers.swift: the players of a league, their order and their ranks.
pub mod Standings
pub mod Order
pub mod Ranks
pub mod Ranked
use league_ranker.Prelude.{
  ℕ, suc, ◌+◌, Bool, true, false, not, ◌&&◌, List, [], ◌∷◌, Option, none, some, map, if◌then◌else◌,
}
use league_ranker.Swift.Int.{ℤ, ltb_ℤ}
use league_ranker.Swift.Dictionary.{Hashable, Dictionary, get, put}
use league_ranker.Swift.Sorting.{Standard}
use league_ranker.TrueSkill.Double.{Double, ◌*◌, ◌/◌, whole}
use league_ranker.TrueSkill.Rating.{Rating}
use league_ranker.League.PlayerForm.{PlayerForm, games, enough_games}

-- `sortedPlayers` refers to the players by their ids, as the array shares the objects of `players`.
pub record LeaguePlayers (S W : Type 0) : Type 0 where
  pub sorted_players : List S
  pub phone_number_to_uid : Dictionary S S
  pub display_name_to_user_id : Dictionary S S
  pub players : Dictionary S (PlayerForm S W)

-- `isEmpty`
unfoldable pub is_empty : {A : Type 0} → List A → Bool
is_empty [] = true
is_empty (x ∷ xs) = false

module _ {S W : Type 0} ⦃d : Double W⦄ where
  -- The predicate of `sorted(by:)`.
  unfoldable pub ahead : ℤ → PlayerForm S W → PlayerForm S W → Bool
  ahead num_placements p q =
      if ltb_ℤ (games p) num_placements && ltb_ℤ (games q) num_placements
      then ltb_ℤ (games q) (games p)
      else if ltb_ℤ (games p) num_placements
      then false
      else if ltb_ℤ (games q) num_placements
      then true
      else d.lt q.rating.mean p.rating.mean

  -- `round(p.rating.Mean * 100) / 100`
  unfoldable pub shown : PlayerForm S W → W
  shown p = d.round (p.rating.mean * whole 100) / whole 100

  -- `count`, at index `i` of the sorted players, of which p1 stands at `i` and p2 before it.
  unfoldable pub next_count : ℤ → ℕ → ℕ → PlayerForm S W → PlayerForm S W → ℕ
  next_count num_placements i count p2 p1 =
      if not (enough_games num_placements p1)
      then if ltb_ℤ (games p1) (games p2) then i else count
      else if d.lt (shown p1) (shown p2)
      then i
      else count

module _ {S W : Type 0} ⦃h : Hashable S⦄ where
  -- `players[id]!.rank = rank`; `none` is the trap of a missing key.
  unfoldable pub set_rank :
      Dictionary S (PlayerForm S W) → S → ℕ → Option (Dictionary S (PlayerForm S W))
  set_rank players id rank = elim (get players id) [
    | none ↦ none
    | some p ↦ some (put players id (record p { rank = rank }))
  ]

module _ {S W : Type 0} ⦃h : Hashable S⦄ ⦃d : Double W⦄ where
  -- The loop over the sorted players from index `i` on.
  unfoldable pub rank_from :
      ℤ
      → ℕ
      → ℕ
      → PlayerForm S W
      → List (PlayerForm S W)
      → Dictionary S (PlayerForm S W)
      → Option (Dictionary S (PlayerForm S W))
  rank_from num_placements i count p2 [] players = some players
  rank_from num_placements i count p2 (p1 ∷ sorted) players =
      let count' = next_count num_placements i count p2 p1 in
      let rest = λ (ranked : Dictionary S (PlayerForm S W)).
        rank_from num_placements (suc i) count' p1 sorted ranked in
      elim (set_rank players p1.id (count' + 1)) [ none ↦ none | some ranked ↦ rest ranked ]

  -- From the first of the sorted players on.
  unfoldable pub rank_sorted :
      ℤ
      → List (PlayerForm S W)
      → Dictionary S (PlayerForm S W)
      → Option (Dictionary S (PlayerForm S W))
  rank_sorted num_placements [] players = none
  rank_sorted num_placements (first ∷ sorted) players = elim (set_rank players first.id 1) [
    | none ↦ none
    | some ranked ↦ rank_from num_placements 1 0 first sorted ranked
  ]

module _ (standard : Standard) {S W : Type 0} ⦃h : Hashable S⦄ ⦃d : Double W⦄ where
  -- `Array(players.values).sorted(by:)`
  unfoldable pub sorted_values : ℤ → Dictionary S (PlayerForm S W) → List (PlayerForm S W)
  sorted_values num_placements players =
      standard.sorted (PlayerForm S W) (ahead num_placements)
        (map (λ (e : S × PlayerForm S W). e.1) (standard.entries S (PlayerForm S W) players))

  -- `sortPlayers`; the league's settings, of which it reads the placements, may be gone.
  unfoldable pub sort_players : Option ℤ → LeaguePlayers S W → Option (LeaguePlayers S W)
  unfolding is_empty
  sort_players none s = some s
  sort_players (some num_placements) s =
      if is_empty s.players
      then some s
      else let sorted = sorted_values num_placements s.players in
        elim (rank_sorted num_placements sorted s.players) [
          | none ↦ none
          | some ranked ↦ some (record s {
            sorted_players = map (λ (p : PlayerForm S W). p.id) sorted;
            players = ranked;
          })
        ]
