-- ===== src/League/Report/Exact.antt =====
-- The update that a game of two against two writes to the database.
use league_ranker.Prelude.{
  ◌≡◌, ◌≢◌, refl, ◌∙◌, Bool, List, [], ◌∷◌, ◌++◌, Option, none, some, arith,
}
use league_ranker.Swift.Int.{ℤ, ltb_ℤ}
use league_ranker.Swift.Dictionary.{Hashable, IsEquality, Dictionary, get}
use league_ranker.Swift.Sorting.{Standard, IsStandard}
use league_ranker.TrueSkill.Double.{Double}
use league_ranker.TrueSkill.Rating.{Rating}
use league_ranker.TrueSkill.RankSorter.Ranked.{IsDistinct}
use league_ranker.TrueSkill.TwoTeam.{new_rating}
use league_ranker.TrueSkill.Calculator.{get_new_ratings}
use league_ranker.TrueSkill.Calculator.Game.{
  pair_of, first_update, second_update, get_new_ratings_exact,
}
use league_ranker.League.PlayerForm.{PlayerForm}
use league_ranker.League.Autocomplete.{contains}
use league_ranker.League.Games.{Keys, Game, Entry}
use league_ranker.League.Games.RoundTrip.{IsKeys, game_of, written, to_any_object_lem}
use league_ranker.League.Report.{
  Place, PlayerField, Change, places, has_won, ratings_before, change_players, get_dictionary,
}
use league_ranker.League.Report.Fields.{change_at}
use league_ranker.League.Report.Rows.{Row, before-none, rows_change, change_players_lem}

module _ {U S W : Type 0} ⦃u : Hashable U⦄ ⦃h : Hashable S⦄ ⦃d : Double W⦄ where
  -- The entry of the update for a player with the new rating, who has won or not.
  abbrev pub line_change :
      U
      → Dictionary S (Entry S)
      → PlayerField U
      → Option (PlayerForm S W × (Rating W × Bool))
      → Option (Change S W)
  line_change id game field none = none
  line_change id game field (some (player, (r, won))) = change_at id game player r won field

  -- The winners of a game of two against two.
  rows_change_of_four :
      (e : IsEquality S) (id : U) (game : Dictionary S (Entry S)) (a b c f i : S) (n m day : ℤ)
      (pa pb pc pf : PlayerForm S W) (ra rb rc rf : Rating W)
      → IsDistinct (a ∷ b ∷ c ∷ f ∷ [])
      → (at : Place U S)
      → rows_change
          (game_of id (a ∷ b ∷ []) (c ∷ f ∷ []) n m i day)
          game
          n
          m
          ((a, (pa, ra)) ∷ (b, (pb, rb)) ∷ (c, (pc, rc)) ∷ (f, (pf, rf)) ∷ [])
          at
        ≡ line_change id game at.field (
            get
              ((a, (pa, (ra, ltb_ℤ m n)))
                ∷ (b, (pb, (rb, ltb_ℤ m n)))
                ∷ (c, (pc, (rc, ltb_ℤ n m)))
                ∷ (f, (pf, (rf, ltb_ℤ n m)))
                ∷ [])
              at.owner)
  unfolding get has_won contains
  rows_change_of_four e id game a b c f i n m day pa pb pc pf ra rb rc rf apart at = ground (
    arith,
    e.same_iff a at.owner,
    e.same_iff b at.owner,
    e.same_iff c at.owner,
    e.same_iff f at.owner,
  )

  module _ (standard : Standard) (laws : IsStandard standard) (v : IsEquality U) (e : IsEquality S)
      (keys : Keys S) (readable : IsKeys keys) where
    get_dictionary_step :
        (players : Dictionary S (PlayerForm S W)) (g : Game U S)
        {ratings new_ratings : List (Rating W)} {ret : Dictionary (Place U S) (Change S W)}
        → ratings_before players (g.team1 ++ g.team2) ≡ some ratings
        → get_new_ratings standard (g.team1 ++ g.team2) g.scores ratings ≡ some new_ratings
        → change_players keys players g (g.team1 ++ g.team2) new_ratings [] ≡ some ret
        → get_dictionary standard keys players g ≡ some (some ret)
    unfolding get_dictionary
    get_dictionary_step players g start rates after = rw (start, rates, after, get_dictionary) refl

    ratings_before_four :
        (players : Dictionary S (PlayerForm S W)) (a b c f : S) {pa pb pc pf : PlayerForm S W}
        → get players a ≡ some pa
        → get players b ≡ some pb
        → get players c ≡ some pc
        → get players f ≡ some pf
        → ratings_before players (a ∷ b ∷ c ∷ f ∷ [])
          ≡ some (pa.rating ∷ pb.rating ∷ pc.rating ∷ pf.rating ∷ [])
    unfolding ratings_before
    ratings_before_four players a b c f ha hb hc hf = rw (ha, hb, hc, hf) refl

    -- For a game of two against two with four different players of the league and different scores,
    -- getDictionary neither traps nor gives nil. What it writes is, of each of the four players, the
    -- mean and the deviation of the rating that getNewRatings gives, the game in its dictionary with
    -- the differences to the old rating, and one more win for the players of the team with the higher
    -- score, one more loss for the others, and nothing else.
    pub get_dictionary_exact :
        (players : Dictionary S (PlayerForm S W)) (id : U) (a b c f i : S) (n m day : ℤ)
        (pa pb pc pf : PlayerForm S W)
        → IsDistinct (a ∷ b ∷ c ∷ f ∷ [])
        → n ≢ m
        → get players a ≡ some pa
        → get players b ≡ some pb
        → get players c ≡ some pc
        → get players f ≡ some pf
        → let team1 = pair_of a pa.rating b pb.rating in
          let team2 = pair_of c pc.rating f pf.rating in
          let up = first_update standard team1 team2 n m in
          let down = second_update standard team1 team2 n m in
          (ret : Dictionary (Place U S) (Change S W)) × (get_dictionary standard keys players
              (game_of id (a ∷ b ∷ []) (c ∷ f ∷ []) n m i day)
            ≡ some (some ret))
          × ((at : Place U S)
              → get ret at
                ≡ line_change id (written keys a b c f i n m day) at.field (
                    get
                      ((a, (pa, (new_rating up pa.rating, ltb_ℤ m n)))
                        ∷ (b, (pb, (new_rating up pb.rating, ltb_ℤ m n)))
                        ∷ (c, (pc, (new_rating down pc.rating, ltb_ℤ n m)))
                        ∷ (f, (pf, (new_rating down pf.rating, ltb_ℤ n m)))
                        ∷ [])
                      at.owner))
    unfolding get
    get_dictionary_exact players id a b c f i n m day pa pb pc pf apart differ ha hb hc hf =
        let team1 = pair_of a pa.rating b pb.rating in
        let team2 = pair_of c pc.rating f pf.rating in
        let up = first_update standard team1 team2 n m in
        let down = second_update standard team1 team2 n m in
        let g = game_of id (a ∷ b ∷ []) (c ∷ f ∷ []) n m i day in
        let game = written keys a b c f i n m day in
        let rows : List (Row S W) =
          (a, (pa, new_rating up pa.rating))
          ∷ (b, (pb, new_rating up pb.rating))
          ∷ (c, (pc, new_rating down pc.rating))
          ∷ (f, (pf, new_rating down pf.rating))
          ∷ [] in
        let rated =
          get_new_ratings_exact standard laws e a b c f pa.rating pb.rating pc.rating pf.rating n m
            apart in
        let writes = to_any_object_lem keys e readable id a b c f i n m day differ in
        let (ret, done, all) =
          change_players_lem v e keys players g game n m writes refl refl rows [] apart
            (ha, (hb, (hc, (hf, tt)))) in
        (
          ret,
          get_dictionary_step players g (ratings_before_four players a b c f ha hb hc hf) rated
              done,
          λ at.
              all at
              ∙ before-none _
              ∙ rows_change_of_four e id game a b c f i n m day pa pb pc pf _ _ _ _ apart at,
        )
