-- ===== src/League/Players/Ranks.antt =====
-- The ranks that the loop of sortPlayers writes.
use league_ranker.Prelude.{
  ℕ, suc, ◌+◌, ◌≡◌, refl, sym, ap, ap₂, ◌∙◌, false, List, [], ◌∷◌, Option, none, some, arith, map,
  All, if◌then◌else◌, Bool-cases, Option-cases, inl, inr,
}
use league_ranker.Swift.Int.{ℤ}
use league_ranker.Swift.Order.{IsOrdered}
use league_ranker.Swift.Dictionary.{Hashable, IsEquality, Dictionary, get, put, get-put}
use league_ranker.Swift.Entries.{IsDictionary, get-absent}
use league_ranker.TrueSkill.Double.{Double}
use league_ranker.League.PlayerForm.{PlayerForm}
use league_ranker.League.Players.{ahead, set_rank, rank_from, rank_sorted}
use league_ranker.League.Players.Standings.{
  count_if, standings, standings_exact, irreflexive, none_better,
}
use league_ranker.League.Players.Order.{
  IsIeee, HasMean, better, better-IsStrictWeak, better-ahead, next_count-better,
}

module _ {S W : Type 0} where
  -- The players under their ids.
  abbrev pub keyed : List (PlayerForm S W) → Dictionary S (PlayerForm S W)
  keyed = map (λ p. (p.id, p))

  -- `values`
  abbrev pub values_of : Dictionary S (PlayerForm S W) → List (PlayerForm S W)
  values_of = map (λ e. e.1)

module _ {S W : Type 0} ⦃h : Hashable S⦄ where
  -- Writes of ranks, one after the other.
  pub assign :
      List (PlayerForm S W)
      → List ℕ
      → Dictionary S (PlayerForm S W)
      → Option (Dictionary S (PlayerForm S W))
  assign [] ranks players = some players
  assign (p ∷ ps) [] players = some players
  assign (p ∷ ps) (rank ∷ ranks) players = elim (set_rank players p.id rank) [
    | none ↦ none
    | some ranked ↦ assign ps ranks ranked
  ]

  abbrev pub IsPresent : Dictionary S (PlayerForm S W) → PlayerForm S W → Type 0
  IsPresent players p = (q : PlayerForm S W) × (get players p.id ≡ some q)

  -- A player with the rank of f, if there is an entry in the first dictionary.
  abbrev pub ranked_by :
      (PlayerForm S W → ℕ)
      → Option (PlayerForm S W)
      → Option (PlayerForm S W)
      → Option (PlayerForm S W)
  ranked_by f none entry = entry
  ranked_by f (some p) none = none
  ranked_by f (some p) (some q) = some (record q { rank = f p })

  still-IsPresent :
      (e : IsEquality S) (players : Dictionary S (PlayerForm S W)) (id : S) (q : PlayerForm S W)
      (ps : List (PlayerForm S W))
      → All (IsPresent players) ps
      → All (IsPresent (put players id q)) ps
  still-IsPresent e players id q [] present = tt
  still-IsPresent e players id q (p ∷ ps) present = elim (Bool-cases (h.same id p.id)) [
    | inl found ↦ (
      (q, get-put e players id p.id q ∙ rw found refl),
      still-IsPresent e players id q ps present.1,
    )
    | inr other ↦ (
      (present.0.0, get-put e players id p.id q ∙ rw other present.0.1),
      still-IsPresent e players id q ps present.1,
    )
  ]

  pub assign_lem :
      (e : IsEquality S) (f : PlayerForm S W → ℕ) (ps : List (PlayerForm S W))
      (players : Dictionary S (PlayerForm S W))
      → IsDictionary (keyed ps)
      → All (IsPresent players) ps
      → (result : Dictionary S (PlayerForm S W)) × (assign ps (map f ps) players ≡ some result)
        × ((id : S) → get result id ≡ ranked_by f (get (keyed ps) id) (get players id))
  unfolding assign set_rank get
  assign_lem e f [] players once present = (players, refl, λ id. refl)
  assign_lem e f (p ∷ ps) players once present =
      let (q, found) = present.0 in
      let players' = put players p.id (record q { rank = f p }) in
      let (result, done, all) =
        assign_lem e f ps players' once.1
          (still-IsPresent e players p.id (record q { rank = f p }) ps present.1) in
      (
        result,
        rw (found, assign, set_rank) done,
        λ id. ground (
          arith,
          all id,
          get-put e players p.id id (record q { rank = f p }),
          get-absent e (keyed ps) p.id once.0,
          e.same_iff p.id id,
          found,
        ),
      )

module _ {S W : Type 0} ⦃h : Hashable S⦄ ⦃d : Double W⦄ where
  -- The loop writes the ranks of `standings`.
  rank_from-standings :
      (n : ℤ) (i count : ℕ) (previous : PlayerForm S W) (ps : List (PlayerForm S W))
      (players : Dictionary S (PlayerForm S W))
      → All (λ p. ahead n p previous ≡ false) ps
      → IsOrdered (ahead n) ps
      → rank_from n i count previous ps players
        ≡ assign ps (standings (better n) i count previous ps) players
  unfolding rank_from assign standings
  rank_from-standings n i count previous [] players behind order = refl
  rank_from-standings n i count previous (p ∷ ps) players behind order =
      let count' : ℕ = if better n previous p then i else count in
      let D = Dictionary S (PlayerForm S W) in
      let step : ℕ → Option D = λ c. elim (set_rank players p.id (c + 1)) [
        | none ↦ none
        | some ranked ↦ rank_from n (suc i) c p ps ranked
      ] in
      ap step (next_count-better n i count previous p behind.0)
      ∙ (elim (Option-cases (set_rank players p.id (count' + 1))) [
        | inl missing ↦ rw (missing, assign, standings) refl
        | inr (ranked, found) ↦
            rw (found, assign, standings)
              (rank_from-standings n (suc i) count' p ps ranked order.0 order.1)
      ])

  pub keyed_values :
      (players : Dictionary S (PlayerForm S W))
      → All (λ e. e.0 ≡ e.1.id) players
      → keyed (map (λ (e : S × PlayerForm S W). e.1) players) ≡ players
  keyed_values [] k = refl
  keyed_values ((id, p) ∷ players) k =
      ap₂ (λ (i : S) rest. (i, p) ∷ rest) (sym k.0) (keyed_values players k.1)

  weaker_order :
      (laws : IsIeee W) (n : ℤ) (ps : List (PlayerForm S W))
      → All HasMean ps
      → IsOrdered (ahead n) ps
      → IsOrdered (better n) ps
  weaker_order laws n [] means order = tt
  weaker_order laws n (p ∷ ps) means order =
      (behind_better ps means.1 order.0, weaker_order laws n ps means.1 order.1)
    where
      behind_better :
          (qs : List (PlayerForm S W))
          → All HasMean qs
          → All (λ q. ahead n q p ≡ false) qs
          → All (λ q. better n q p ≡ false) qs
      behind_better [] ms bs = tt
      behind_better (q ∷ qs) ms bs =
          (better-ahead laws n q p ms.0 means.0 bs.0, behind_better qs ms.1 bs.1)

  -- All the ranks, where the players are in order.
  pub rank_sorted_lem :
      (laws : IsIeee W) (n : ℤ) (first : PlayerForm S W) (ps : List (PlayerForm S W))
      (players : Dictionary S (PlayerForm S W))
      → All HasMean (first ∷ ps)
      → IsOrdered (ahead n) (first ∷ ps)
      → rank_sorted n (first ∷ ps) players
        ≡ assign
            (first ∷ ps)
            (map (λ p. count_if (λ q. better n q p) (first ∷ ps) + 1) (first ∷ ps))
            players
  unfolding rank_sorted assign
  rank_sorted_lem laws n first ps players means order =
      let Players = Dictionary S (PlayerForm S W) in
      let weak = better-IsStrictWeak laws n in
      let better_order = weaker_order laws n (first ∷ ps) means order in
      let total : PlayerForm S W → ℕ = λ p. count_if (λ q. better n q p) (first ∷ ps) in
      let own = irreflexive (better n) weak first means.0 in
      let none_ahead = none_better (better n) first ps better_order.0 in
      let first_rank : 1 ≡ total first + 1 = ground (arith, own, none_ahead) in
      let ranks =
        standings_exact (better n) weak total first (first ∷ []) ps 0 means.0 (means.0, tt) means.1
          (own, tt) better_order.0 better_order.1 (ground (arith, own)) (λ p. omega arith) in
      let step : ℕ → Option Players = λ rank. elim (set_rank players first.id rank) [
        | none ↦ none
        | some ranked ↦ assign ps (map (λ p. total p + 1) ps) ranked
      ] in
      (elim (Option-cases (set_rank players first.id 1)) [
        | inl missing ↦ rw (missing, rank_sorted) refl
        | inr (ranked, found) ↦
            rw (found, rank_sorted)
              (rank_from-standings n 1 0 first ps ranked order.0 order.1
                ∙ ap (λ r. assign ps r ranked) ranks)
      ])
      ∙ ap step first_rank

  pub each_keyed :
      (players : Dictionary S (PlayerForm S W)) (ps : List (PlayerForm S W))
      → All (λ y. get players y.0 ≡ some y.1) (keyed ps)
      → All (IsPresent players) ps
  each_keyed players [] found = tt
  each_keyed players (p ∷ ps) found = ((p, found.0), each_keyed players ps found.1)

  pub each_value :
      (P : PlayerForm S W → Type 0) (players : Dictionary S (PlayerForm S W))
      → All (λ e. P e.1) players
      → All P (values_of players)
  each_value P [] every = tt
  each_value P (e ∷ players) every = (every.0, each_value P players every.1)
