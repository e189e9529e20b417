-- ===== src/TrueSkill/Tests.antt =====
-- Runs of the rating code, and theorems on it at concrete games.
use mathlib.Core.List.{Permᴰ}
use league_ranker.Prelude.{ℕ, true, ◌≡◌, refl, ◌≤◌, List, [], ◌∷◌, none, some, map, arith, length}
use league_ranker.Swift.Int.{ℤ, pos, negsuc}
use league_ranker.Swift.Order.{IsOrdered}
use league_ranker.Swift.Dictionary.{get, put}
use league_ranker.Swift.Sorting.{plain, plain-IsStandard, insertion_sort}
use league_ranker.TrueSkill.Range.{validate, invalid_count, exactly, at_least}
use league_ranker.TrueSkill.Rating.{Team, default_game_info}
use league_ranker.TrueSkill.Sample.{whole_double, whole_keys, whole_keys-IsEquality, rated}
use league_ranker.TrueSkill.RankSorter.{sort, team_of, rank_of, by_rank, needs_sort}
use league_ranker.TrueSkill.RankSorter.Ranked.{zip, sort-IsOrdered}
use league_ranker.TrueSkill.TwoTeam.{new_rating, update_of}
use league_ranker.TrueSkill.Calculator.{calculate_new_ratings, get_new_ratings}
use league_ranker.TrueSkill.Calculator.Exact.{updated, outcome, calculate_new_ratings_exact}
use league_ranker.TrueSkill.Calculator.Game.{first_update, second_update, get_new_ratings_exact}
use league_ranker.TrueSkill.Calculator.Traps.{AreTwo, calculate_new_ratings_requires}

-- A first rank below zero makes the sorter sort.
falling : needs_sort (pos 0) (negsuc 0 ∷ pos 1 ∷ []) ≡ true
unfolding needs_sort
falling = refl

-- Equal teams are one key, so that one of them is lost.
twins : sort plain {T = ℕ} (5 ∷ 5 ∷ []) (pos 2 ∷ pos 1 ∷ []) ≡ some (5 ∷ [], pos 1 ∷ [])
unfolding sort insertion_sort put
twins = refl

three_teams :
    validate {T = ℕ} ((1 ∷ []) ∷ (2 ∷ []) ∷ (3 ∷ []) ∷ []) (exactly (pos 2)) (at_least (pos 1))
    ≡ invalid_count (exactly (pos 2)) 3
unfolding validate at_least exactly
three_teams = refl

abbrev first_team : Team ℕ ℕ
first_team = (1, rated 25) ∷ (2, rated 30) ∷ []

abbrev second_team : Team ℕ ℕ
second_team = (3, rated 20) ∷ (4, rated 28) ∷ []

sort-IsOrdered_example :
    (entries : List (ℕ × ℤ)) × (sort plain {T = ℕ} (5 ∷ 6 ∷ []) (pos 2 ∷ pos 1 ∷ [])
      ≡ some (map team_of entries, map rank_of entries))
    × Permᴰ entries (zip (5 ∷ 6 ∷ []) (pos 2 ∷ pos 1 ∷ []))
    × IsOrdered by_rank entries
sort-IsOrdered_example =
    sort-IsOrdered plain plain-IsStandard (5 ∷ 6 ∷ []) (pos 2 ∷ pos 1 ∷ []) ((refl, tt), (tt, tt))
      refl

calculate_new_ratings_exact_example :
    (results : Team ℕ ℕ) × (calculate_new_ratings plain default_game_info
        (first_team ∷ second_team ∷ [])
        (pos 2 ∷ pos 1 ∷ [])
      ≡ some results)
    × ((player : ℕ)
        → get results player
          ≡ updated
              (update_of plain default_game_info first_team second_team (outcome (pos 2) (pos 1)))
              (get first_team player)
              (updated
                (update_of plain default_game_info second_team first_team (outcome (pos 1) (pos 2)))
                (get second_team player)
                none))
unfolding get
calculate_new_ratings_exact_example =
    calculate_new_ratings_exact plain plain-IsStandard whole_keys-IsEquality default_game_info
      first_team second_team (pos 2) (pos 1) (((refl, tt), (tt, tt)), omega arith, omega arith)
      (((refl, tt), (tt, tt)), omega arith, omega arith) (refl, (refl, tt))

get_new_ratings_exact_example :
    get_new_ratings plain {K = ℕ} {W = ℕ}
      (1 ∷ 2 ∷ 3 ∷ 4 ∷ [])
      (pos 5 ∷ pos 7 ∷ [])
      (rated 25 ∷ rated 30 ∷ rated 20 ∷ rated 28 ∷ [])
    ≡ some (
        new_rating (first_update plain first_team second_team (pos 5) (pos 7)) (rated 25)
        ∷ new_rating (first_update plain first_team second_team (pos 5) (pos 7)) (rated 30)
        ∷ new_rating (second_update plain first_team second_team (pos 5) (pos 7)) (rated 20)
        ∷ new_rating (second_update plain first_team second_team (pos 5) (pos 7)) (rated 28)
        ∷ [])
get_new_ratings_exact_example =
    get_new_ratings_exact plain plain-IsStandard whole_keys-IsEquality 1 2 3 4 (rated 25) (rated 30)
      (rated 20) (rated 28) (pos 5) (pos 7)
      ((refl, (refl, (refl, tt))), ((refl, (refl, tt)), ((refl, tt), (tt, tt))))

calculate_new_ratings_requires_example :
    AreTwo (first_team ∷ second_team ∷ []) × (2 ≤ length (pos 2 ∷ pos 1 ∷ []))
unfolding get
calculate_new_ratings_requires_example =
    calculate_new_ratings_requires plain default_game_info (first_team ∷ second_team ∷ [])
      (pos 2 ∷ pos 1 ∷ [])
      (calculate_new_ratings_exact plain plain-IsStandard whole_keys-IsEquality default_game_info
        first_team second_team (pos 2) (pos 1) (((refl, tt), (tt, tt)), omega arith, omega arith)
        (((refl, tt), (tt, tt)), omega arith, omega arith) (refl, (refl, tt))).1
