-- ===== src/TrueSkill/Calculator/Game.antt =====
-- What getNewRatings of Functions.swift computes for a game of two against two.
use league_ranker.Prelude.{
  ◌≡◌, refl, ◌∙◌, false, [], ◌∷◌, none, some, arith, if◌then◌else◌, Bool-cases, inl, inr,
}
use league_ranker.Swift.Int.{ℤ, pos, ltb_ℤ}
use league_ranker.Swift.Dictionary.{Hashable, IsEquality, get, put}
use league_ranker.Swift.Entries.{flip, itself}
use league_ranker.Swift.Sorting.{Standard, IsStandard}
use league_ranker.TrueSkill.Double.{Double}
use league_ranker.TrueSkill.Rating.{Rating, lose, win, Team, default_game_info, add_player}
use league_ranker.TrueSkill.RankSorter.Ranked.{IsDistinct}
use league_ranker.TrueSkill.TwoTeam.{Update, new_rating, update_of}
use league_ranker.TrueSkill.Calculator.{calculate_new_ratings, get_new_ratings}
use league_ranker.TrueSkill.Calculator.Exact.{IsTeam, outcome, calculate_new_ratings_exact}

-- The team of two players.
abbrev pub pair_of : {K W : Type 0} → K → Rating W → K → Rating W → Team K W
pair_of p r q s = (p, r) ∷ (q, s) ∷ []

module _ (standard : Standard) {K W : Type 0} ⦃h : Hashable K⦄ ⦃d : Double W⦄ where
  -- The rating of team 1 and of team 2, after these scores.
  abbrev pub first_update : (a b : Team K W) (score1 score2 : ℤ) → Update W
  first_update a b score1 score2 =
      update_of standard default_game_info a b (if ltb_ℤ score2 score1 then win else lose)

  abbrev pub second_update : (a b : Team K W) (score1 score2 : ℤ) → Update W
  second_update a b score1 score2 =
      update_of standard default_game_info b a (if ltb_ℤ score2 score1 then lose else win)

  module _ (laws : IsStandard standard) (e : IsEquality K) where
    IsTeam-pair_of : (p q : K) (r s : Rating W) → h.same p q ≡ false → IsTeam (pair_of p r q s)
    IsTeam-pair_of p q r s n = (((n, tt), (tt, tt)), omega arith, omega arith)

    get-pair_of_first : (p q : K) (r s : Rating W) → get (pair_of p r q s) p ≡ some r
    unfolding get
    get-pair_of_first p q r s = rw (itself e p) refl

    get-pair_of_second :
        (p q : K) (r s : Rating W) → h.same p q ≡ false → get (pair_of p r q s) q ≡ some s
    unfolding get
    get-pair_of_second p q r s n = rw (n, itself e q) refl

    get-pair_of_other :
        (p q other : K) (r s : Rating W)
        → h.same p other ≡ false
        → h.same q other ≡ false
        → get (pair_of p r q s) other ≡ none
    unfolding get
    get-pair_of_other p q other r s n m = rw (n, m) refl

    -- CalculateNewRatings on two teams of two.
    rated :
        (p1 p2 p3 p4 : K) (r1 r2 r3 r4 : Rating W) (rank1 rank2 : ℤ)
        → IsDistinct (p1 ∷ p2 ∷ p3 ∷ p4 ∷ [])
        → let a = pair_of p1 r1 p2 r2 in
          let b = pair_of p3 r3 p4 r4 in
          let u = update_of standard default_game_info a b (outcome rank1 rank2) in
          let v = update_of standard default_game_info b a (outcome rank2 rank1) in
          (results : Team K W) × (calculate_new_ratings standard default_game_info
              (a ∷ b ∷ [])
              (rank1 ∷ rank2 ∷ [])
            ≡ some results)
          × (get results p1 ≡ some (new_rating u r1))
          × (get results p2 ≡ some (new_rating u r2))
          × (get results p3 ≡ some (new_rating v r3))
          × (get results p4 ≡ some (new_rating v r4))
    rated p1 p2 p3 p4 r1 r2 r3 r4 rank1 rank2 apart =
        let a = pair_of p1 r1 p2 r2 in
        let b = pair_of p3 r3 p4 r4 in
        let n12 = apart.0.0 in
        let n34 = apart.1.1.0.0 in
        let n13 = apart.0.1.0 in
        let n14 = apart.0.1.1.0 in
        let n23 = apart.1.0.0 in
        let n24 = apart.1.0.1.0 in
        let b1 = get-pair_of_other p3 p4 p1 r3 r4 (flip e p1 p3 n13) (flip e p1 p4 n14) in
        let b2 = get-pair_of_other p3 p4 p2 r3 r4 (flip e p2 p3 n23) (flip e p2 p4 n24) in
        let (results, done, all) =
          calculate_new_ratings_exact standard laws e default_game_info a b rank1 rank2
            (IsTeam-pair_of p1 p2 r1 r2 n12) (IsTeam-pair_of p3 p4 r3 r4 n34) (b1, (b2, tt)) in
        (
          results,
          done,
          all p1 ∙ rw (get-pair_of_first p1 p2 r1 r2) refl,
          all p2 ∙ rw (get-pair_of_second p1 p2 r1 r2 n12) refl,
          all p3
              ∙ rw (get-pair_of_other p1 p2 p3 r1 r2 n13 n23, get-pair_of_first p3 p4 r3 r4) refl,
          all p4
              ∙ rw (get-pair_of_other p1 p2 p4 r1 r2 n14 n24, get-pair_of_second p3 p4 r3 r4 n34)
                  refl,
        )

    -- For four different players getNewRatings does not trap, and gives each of them, in the order of
    -- the players, the rating of UpdatePlayerRatings for the player's team against the other one:
    -- players 1 and 2 win against 3 and 4 if the first score is above the second, and lose if not,
    -- also where the scores are equal.
    pub get_new_ratings_exact :
        (p1 p2 p3 p4 : K) (r1 r2 r3 r4 : Rating W) (score1 score2 : ℤ)
        → IsDistinct (p1 ∷ p2 ∷ p3 ∷ p4 ∷ [])
        → let a = pair_of p1 r1 p2 r2 in
          let b = pair_of p3 r3 p4 r4 in
          let u = first_update a b score1 score2 in
          let v = second_update a b score1 score2 in
          get_new_ratings standard
            (p1 ∷ p2 ∷ p3 ∷ p4 ∷ [])
            (score1 ∷ score2 ∷ [])
            (r1 ∷ r2 ∷ r3 ∷ r4 ∷ [])
          ≡ some (new_rating u r1 ∷ new_rating u r2 ∷ new_rating v r3 ∷ new_rating v r4 ∷ [])
    unfolding get_new_ratings add_player put
    get_new_ratings_exact p1 p2 p3 p4 r1 r2 r3 r4 score1 score2 apart =
        let a = pair_of p1 r1 p2 r2 in
        let b = pair_of p3 r3 p4 r4 in
        elim (Bool-cases (ltb_ℤ score2 score1)) [
          | inl won ↦
              let (results, done, new1, new2, new3, new4) =
                rated p1 p2 p3 p4 r1 r2 r3 r4 (pos 1) (pos 2) apart in
              rw (apart.0.0, apart.1.1.0.0, won, done, new1, new2, new3, new4) refl
          | inr lost ↦
              let (results, done, new1, new2, new3, new4) =
                rated p1 p2 p3 p4 r1 r2 r3 r4 (pos 2) (pos 1) apart in
              rw (apart.0.0, apart.1.1.0.0, lost, done, new1, new2, new3, new4) refl
        ]
