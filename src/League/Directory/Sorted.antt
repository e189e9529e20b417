-- ===== src/League/Directory/Sorted.antt =====
-- sortPlayers changes ranks and the order only.
use mathlib.Core.Option
use league_ranker.Prelude.{
  ℕ, suc, ◌+◌, ◌≡◌, ◌∙◌, List, [], ◌∷◌, Option, none, some, arith, Bool-cases, Option-cases, inl,
  inr,
}
use league_ranker.Swift.Int.{ℤ}
use league_ranker.Swift.Dictionary.{Hashable, IsEquality, Dictionary, get, get-put}
use league_ranker.Swift.Sorting.{Standard}
use league_ranker.TrueSkill.Double.{Double}
use league_ranker.League.PlayerForm.{PlayerForm}
use league_ranker.League.Players.{
  LeaguePlayers, is_empty, set_rank, next_count, rank_from, rank_sorted, sorted_values,
  sort_players,
}

-- A player but for the rank.
abbrev pub unranked : {S W : Type 0} → PlayerForm S W → PlayerForm S W
unranked p = record p { rank = 0 }

module _ {S W : Type 0} ⦃h : Hashable S⦄ where
  abbrev pub SameButRank : Dictionary S (PlayerForm S W) → Dictionary S (PlayerForm S W) → Type 0
  SameButRank players players' =
      (id : S) → Option.map unranked (get players' id) ≡ Option.map unranked (get players id)

  set_rank-SameButRank :
      (e : IsEquality S) (players : Dictionary S (PlayerForm S W)) (key : S) (rank : ℕ)
      {players' : Dictionary S (PlayerForm S W)}
      → set_rank players key rank ≡ some players'
      → SameButRank players players'
  unfolding set_rank
  set_rank-SameButRank e players key rank done id = elim (Option-cases (get players key)) [
    | inl missing ↦ ground arith
    | inr (p, found) ↦
        ground (arith, get-put e players key id (record p { rank = rank }), e.same_iff key id)
  ]

module _ {S W : Type 0} ⦃h : Hashable S⦄ ⦃d : Double W⦄ where
  rank_from-SameButRank :
      (e : IsEquality S) (n : ℤ) (i count : ℕ) (previous : PlayerForm S W)
      (ps : List (PlayerForm S W)) (players : Dictionary S (PlayerForm S W))
      {players' : Dictionary S (PlayerForm S W)}
      → rank_from n i count previous ps players ≡ some players'
      → SameButRank players players'
  unfolding rank_from
  rank_from-SameButRank e n i count previous [] players done id = ground arith
  rank_from-SameButRank e n i count previous (p ∷ ps) players done id =
      let count' = next_count n i count previous p in
      elim (Option-cases (set_rank players p.id (count' + 1))) [
        | inl missing ↦ ground arith
        | inr (ranked, found) ↦
            rank_from-SameButRank e n (suc i) count' p ps ranked (ground arith) id
            ∙ set_rank-SameButRank e players p.id (count' + 1) found id
      ]

  rank_sorted-SameButRank :
      (e : IsEquality S) (n : ℤ) (ps : List (PlayerForm S W))
      (players : Dictionary S (PlayerForm S W)) {players' : Dictionary S (PlayerForm S W)}
      → rank_sorted n ps players ≡ some players'
      → SameButRank players players'
  unfolding rank_sorted
  rank_sorted-SameButRank e n [] players done id = cc
  rank_sorted-SameButRank e n (p ∷ ps) players done id =
      elim (Option-cases (set_rank players p.id 1)) [
        | inl missing ↦ ground arith
        | inr (ranked, found) ↦
            rank_from-SameButRank e n 1 0 p ps ranked (ground arith) id
            ∙ set_rank-SameButRank e players p.id 1 found id
      ]

  -- What sortPlayers leaves alone.
  pub record IsSorted (s s' : LeaguePlayers S W) : Type 0 where
    pub same_names : s'.display_name_to_user_id ≡ s.display_name_to_user_id
    pub same_numbers : s'.phone_number_to_uid ≡ s.phone_number_to_uid
    pub same_players : SameButRank s.players s'.players

module _ (standard : Standard) {S W : Type 0} ⦃h : Hashable S⦄ ⦃d : Double W⦄ where
  pub sort_players-IsSorted :
      (e : IsEquality S) (placements : Option ℤ) (s : LeaguePlayers S W) {s' : LeaguePlayers S W}
      → sort_players standard placements s ≡ some s'
      → IsSorted s s'
  unfolding sort_players
  sort_players-IsSorted e none s done = record {
    same_names = ground arith;
    same_numbers = ground arith;
    same_players = λ id. ground arith;
  }
  sort_players-IsSorted e (some n) s done = elim (Bool-cases (is_empty s.players)) [
    | inl nobody ↦ record {
      same_names = ground arith;
      same_numbers = ground arith;
      same_players = λ id. ground arith;
    }
    | inr somebody ↦
        elim (Option-cases (rank_sorted n (sorted_values standard n s.players) s.players)) [
          | inl trap ↦ absurd (ground arith)
          | inr (ranked, found) ↦
              let same =
                rank_sorted-SameButRank e n (sorted_values standard n s.players) s.players found in
              record {
                same_names = ground arith;
                same_numbers = ground arith;
                same_players = λ id. ground (arith, same id);
              }
        ]
  ]
