-- ===== src/League/Report/Tests.antt =====
-- The update of a game of four players of a small league.
use league_ranker.Prelude.{ℕ, ◌+◌, ◌≡◌, refl, true, false, [], ◌∷◌, some, arith}
use league_ranker.Swift.Int.{pos}
use league_ranker.Swift.Dictionary.{Dictionary, get}
use league_ranker.Swift.Sorting.{plain, plain-IsStandard}
use league_ranker.TrueSkill.Sample.{whole_double, whole_keys, whole_keys-IsEquality, rated}
use league_ranker.TrueSkill.TwoTeam.{new_rating}
use league_ranker.TrueSkill.Calculator.Game.{pair_of, first_update, second_update}
use league_ranker.League.PlayerForm.{PlayerForm}
use league_ranker.League.Games.RoundTrip.{game_of, written}
use league_ranker.League.Games.Sample.{plain_keys, plain_keys-IsKeys}
use league_ranker.League.Report.{Place, Change, places, get_dictionary}
use league_ranker.League.Report.Exact.{line_change, get_dictionary_exact}

abbrev member : ℕ → ℕ → PlayerForm ℕ ℕ
member id mean = record {
  id = id;
  display_name = 70 + id;
  phone_number = 50 + id;
  real_name = 90 + id;
  rank = 1;
  rating = rated mean;
  wins = pos 3;
  losses = pos 1;
}

abbrev members : Dictionary ℕ (PlayerForm ℕ ℕ)
members =
    (1, member 1 25) ∷ (2, member 2 30) ∷ (3, member 3 20) ∷ (4, member 4 28) ∷ (5, member 5 9) ∷ []

get_dictionary_exact_example :
    let team1 = pair_of {K = ℕ} {W = ℕ} 1 (rated 25) 2 (rated 30) in
    let team2 = pair_of {K = ℕ} {W = ℕ} 3 (rated 20) 4 (rated 28) in
    let up = first_update plain team1 team2 (pos 11) (pos 9) in
    let down = second_update plain team1 team2 (pos 11) (pos 9) in
    (ret : Dictionary (Place ℕ ℕ) (Change ℕ ℕ)) × (get_dictionary plain plain_keys members
        (game_of 7 (1 ∷ 2 ∷ []) (3 ∷ 4 ∷ []) (pos 11) (pos 9) 1 (pos 100))
      ≡ some (some ret))
    × ((at : Place ℕ ℕ)
        → get ret at
          ≡ line_change 7 (written plain_keys 1 2 3 4 1 (pos 11) (pos 9) (pos 100)) at.field (
              get
                ((1, (member 1 25, (new_rating up (rated 25), true)))
                  ∷ (2, (member 2 30, (new_rating up (rated 30), true)))
                  ∷ (3, (member 3 20, (new_rating down (rated 20), false)))
                  ∷ (4, (member 4 28, (new_rating down (rated 28), false)))
                  ∷ [])
                at.owner))
unfolding get
get_dictionary_exact_example =
    get_dictionary_exact plain plain-IsStandard whole_keys-IsEquality whole_keys-IsEquality
      plain_keys plain_keys-IsKeys members 7 1 2 3 4 1 (pos 11) (pos 9) (pos 100) (member 1 25)
      (member 2 30) (member 3 20) (member 4 28)
      ((refl, (refl, (refl, tt))), ((refl, (refl, tt)), ((refl, tt), (tt, tt)))) (ground arith) refl
      refl refl refl
