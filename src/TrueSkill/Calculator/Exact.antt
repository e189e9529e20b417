-- ===== src/TrueSkill/Calculator/Exact.antt =====
-- What CalculateNewRatings computes for two teams.
use league_ranker.Prelude.{
  ◌≡◌, refl, ◌∙◌, ◌⊎◌, ◌<◌, ◌^◌, false, List, [], ◌∷◌, Option, none, some, arith, All, length,
  if◌then◌else◌, Bool-cases, inl, inr, map,
}
use mathlib.Core.List.Permᴰ
use league_ranker.Swift.Int.{ℤ, eq_ℤ, ltb_ℤ}
use league_ranker.Swift.Order.{IsOrdered, two_rearranged}
use league_ranker.Swift.Dictionary.{Hashable, IsEquality, get, put, get-put}
use league_ranker.Swift.Entries.{IsDictionary, get-absent, IsDictionary-rearranged, get-rearranged}
use league_ranker.Swift.Sorting.{Standard, IsStandard}
use league_ranker.TrueSkill.Double.{Double}
use mathlib.Core.Path.{subst}
use league_ranker.TrueSkill.Range.{validate, is_in_range}
use league_ranker.TrueSkill.Rating.{
  Rating, GameInfo, PairwiseComparison, lose, draw, win, Team, same_team, teams as teams_hashable,
}
use league_ranker.TrueSkill.RankSorter.{sort, team_of, rank_of, by_rank}
use league_ranker.TrueSkill.RankSorter.Ranked.{sort-IsOrdered}
use league_ranker.TrueSkill.TwoTeam.{
  Update, players_per_team_allowed, total_teams_allowed, winner_comparison, loser_comparison,
  new_rating, update_of,
}
use league_ranker.TrueSkill.Calculator.{
  checked, update_all, update_player_ratings, rate_sorted, calculate_new_ratings,
}

turn : {A B : Type 0} → A ⊎ B → B ⊎ A
turn (inl a) = inr a
turn (inr b) = inl b

-- How a team with the first rank did against a team with the second: the lower rank wins.
abbrev pub outcome : ℤ → ℤ → PairwiseComparison
outcome own others = if ltb_ℤ own others then win else if ltb_ℤ others own then lose else draw

-- What UpdatePlayerRatings does to a player's entry.
abbrev pub updated :
    {W : Type 0} ⦃d : Double W⦄
    → Update W
    → Option (Rating W)
    → Option (Rating W)
    → Option (Rating W)
updated u none result = result
updated u (some previous) result = some (new_rating u previous)

updated_swap :
    {W : Type 0} ⦃d : Double W⦄ (u v : Update W) (x y : Option (Rating W))
    → (x ≡ none) ⊎ (y ≡ none)
    → updated u x (updated v y none) ≡ updated v y (updated u x none)
updated_swap u v x y (inl n) = rw n refl
updated_swap u v x y (inr n) = rw n refl

module _ {K W : Type 0} ⦃h : Hashable K⦄ ⦃d : Double W⦄ where
  get-update_all :
      (e : IsEquality K) (u : Update W) (entries results : Team K W) (player : K)
      → IsDictionary entries
      → get (update_all u entries results) player
        ≡ updated u (get entries player) (get results player)
  unfolding get update_all
  get-update_all e u [] results player once = refl
  get-update_all e u ((p, r) ∷ entries) results player once = ground (
    arith,
    get-update_all e u entries (put results p (new_rating u r)) player once.1,
    get-put e results p player (new_rating u r),
    get-absent e entries p once.0,
    e.same_iff p player,
  )

winner_lem : (r q : ℤ) → ltb_ℤ q r ≡ false → winner_comparison (eq_ℤ r q) ≡ outcome r q
unfolding winner_comparison
winner_lem r q h = ground arith

loser_lem : (r q : ℤ) → ltb_ℤ q r ≡ false → loser_comparison (eq_ℤ r q) ≡ outcome q r
unfolding loser_comparison
loser_lem r q h = ground arith

-- A team that the calculator allows: at least one player, each once.
abbrev pub IsTeam : {K W : Type 0} ⦃h : Hashable K⦄ → Team K W → Type 0
IsTeam team = IsDictionary team × (0 < length team) × (length team < 2 ^ 63)

-- No player of the first team is in the second.
abbrev pub AreDisjoint : {K W : Type 0} ⦃h : Hashable K⦄ → Team K W → Team K W → Type 0
AreDisjoint a b = All (λ entry. get b entry.0 ≡ none) a

module _ {K W : Type 0} ⦃h : Hashable K⦄ ⦃d : Double W⦄ where
  same_team-AreDisjoint : (a b : Team K W) → 0 < length a → AreDisjoint a b → same_team a b ≡ false
  unfolding same_team
  same_team-AreDisjoint [] b n apart = absurd (omega arith)
  same_team-AreDisjoint ((k, r) ∷ a) b n apart = rw apart.0 (ground arith)

  in_one_team :
      (e : IsEquality K) (a b : Team K W) (player : K)
      → AreDisjoint a b
      → (get a player ≡ none) ⊎ (get b player ≡ none)
  unfolding get
  in_one_team e [] b player apart = inl refl
  in_one_team e ((k, r) ∷ a) b player apart = elim (Bool-cases (h.same k player)) [
    | inl found ↦ inr (subst (λ p. get b p ≡ none) ((e.same_iff k player).0 found) apart.0)
    | inr other ↦ elim (in_one_team e a b player apart.1) [
      | inl n ↦ inl (rw other n)
      | inr n ↦ inr n
    ]
  ]

  validate-teams :
      (a b : Team K W)
      → IsTeam a
      → IsTeam b
      → checked (validate (a ∷ b ∷ []) total_teams_allowed players_per_team_allowed) ≡ some tt
  unfolding validate total_teams_allowed players_per_team_allowed is_in_range
  validate-teams a b h k = ground arith

module _ (standard : Standard) {K W : Type 0} ⦃h : Hashable K⦄ ⦃d : Double W⦄ where
  module _ (laws : IsStandard standard) (e : IsEquality K) (info : GameInfo W) where
    get-update_player_ratings :
        (results self other : Team K W) (c : PairwiseComparison) (player : K)
        → IsDictionary self
        → get (update_player_ratings standard info results self other c) player
          ≡ updated (update_of standard info self other c) (get self player) (get results player)
    unfolding update_player_ratings
    get-update_player_ratings results self other c player once =
        let whole = laws.entries_all K (Rating W) self in
        let again = Permᴰ.symm whole in
        rw
          (
            get-update_all e (update_of standard info self other c)
                (standard.entries K (Rating W) self) results player
                (IsDictionary-rearranged e again once),
            get-rearranged e player again once,
          )
          refl

    -- The first team is not behind the second.
    rate_sorted_lem :
        (a b : Team K W) (r q : ℤ)
        → IsDictionary a
        → IsDictionary b
        → ltb_ℤ q r ≡ false
        → (results : Team K W) × (rate_sorted standard info (a ∷ b ∷ []) (r ∷ q ∷ [])
            ≡ some results)
          × ((player : K)
              → get results player
                ≡ updated
                    (update_of standard info b a (outcome q r))
                    (get b player)
                    (updated (update_of standard info a b (outcome r q)) (get a player) none))
    unfolding rate_sorted get
    rate_sorted_lem a b r q once_a once_b first =
        let winners = winner_comparison (eq_ℤ r q) in
        let losers = loser_comparison (eq_ℤ r q) in
        let half = update_player_ratings standard info [] a b winners in
        (
          update_player_ratings standard info half b a losers,
          refl,
          λ player.
              rw
                (
                  get-update_player_ratings half b a losers player once_b,
                  get-update_player_ratings [] a b winners player once_a,
                  winner_lem r q first,
                  loser_lem r q first,
                )
                refl,
        )

    calculated :
        (a b : Team K W) (r q : ℤ) (entries : List (Team K W × ℤ))
        → IsTeam a
        → IsTeam b
        → sort standard (a ∷ b ∷ []) (r ∷ q ∷ []) ≡ some (map team_of entries, map rank_of entries)
        → calculate_new_ratings standard info (a ∷ b ∷ []) (r ∷ q ∷ [])
          ≡ rate_sorted standard info (map team_of entries) (map rank_of entries)
    unfolding calculate_new_ratings
    calculated a b r q entries ta tb sorted = rw (validate-teams a b ta tb, sorted) refl

    -- CalculateNewRatings, on two teams without a common player, each of at least one player and of
    -- fewer than 2 ^ 63, gives a rating to exactly the players of the teams: a player's new rating is
    -- that of UpdatePlayerRatings for the player's team against the other one, with a win for the team
    -- of the lower rank and a draw where the ranks are equal, in whichever order the teams come.
    pub calculate_new_ratings_exact :
        (a b : Team K W) (r q : ℤ)
        → IsTeam a
        → IsTeam b
        → AreDisjoint a b
        → (results : Team K W) × (calculate_new_ratings standard info (a ∷ b ∷ []) (r ∷ q ∷ [])
            ≡ some results)
          × ((player : K)
              → get results player
                ≡ updated
                    (update_of standard info a b (outcome r q))
                    (get a player)
                    (updated (update_of standard info b a (outcome q r)) (get b player) none))
    calculate_new_ratings_exact a b r q ta tb apart =
        let distinct = same_team-AreDisjoint a b ta.1 apart in
        let (entries, sorted, perm, order) =
          sort-IsOrdered standard laws (a ∷ b ∷ []) (r ∷ q ∷ []) ((distinct, tt), (tt, tt)) refl in
        elim (two_rearranged (a, r) (b, q) perm refl) [
          | inl kept ↦
              let first = (subst (IsOrdered by_rank) kept order).0.0 in
              let (results, done, all) = rate_sorted_lem a b r q ta.0 tb.0 first in
              (
                results,
                rw (calculated a b r q entries ta tb sorted, kept) done,
                λ player. all player ∙ updated_swap _ _ _ _ (turn (in_one_team e a b player apart)),
              )
          | inr turned ↦
              let first = (subst (IsOrdered by_rank) turned order).0.0 in
              let (results, done, all) = rate_sorted_lem b a q r tb.0 ta.0 first in
              (results, rw (calculated a b r q entries ta tb sorted, turned) done, all)
        ]
