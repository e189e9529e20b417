-- ===== src/League/Games/Tests.antt =====
-- A game with whole numbers for strings.
use league_ranker.Prelude.{ℕ, ◌≡◌, ◌⊎◌, refl, [], ◌∷◌, none, some, arith}
use league_ranker.Swift.Int.{pos}
use league_ranker.Swift.Dictionary.{Dictionary}
use league_ranker.Swift.Sorting.{plain, plain-IsStandard}
use league_ranker.TrueSkill.Sample.{whole_keys, whole_keys-IsEquality}
use league_ranker.League.Games.{Entry, to_any_object, from_dictionary}
use league_ranker.League.Games.RoundTrip.{game_of, exchanged, game_round_trip, equal_scores_trap}
use league_ranker.League.Games.Sample.{plain_keys, plain_keys-IsKeys}

game_round_trip_example :
    (dict : Dictionary ℕ (Entry ℕ)) × (to_any_object {U = ℕ} plain_keys
        (game_of 7 (1 ∷ 2 ∷ []) (3 ∷ 4 ∷ []) (pos 11) (pos 9) 1 (pos 100))
      ≡ some dict)
    × ((from_dictionary plain {U = ℕ} plain_keys dict 7
          ≡ some (game_of 7 (1 ∷ 2 ∷ []) (3 ∷ 4 ∷ []) (pos 11) (pos 9) 1 (pos 100)))
        ⊎ (from_dictionary plain {U = ℕ} plain_keys dict 7
            ≡ some (exchanged 7 (1 ∷ 2 ∷ []) (3 ∷ 4 ∷ []) (pos 11) (pos 9) 1 (pos 100))))
game_round_trip_example =
    game_round_trip plain_keys whole_keys-IsEquality plain_keys-IsKeys plain plain-IsStandard 7 1 2
      3 4 1 (pos 11) (pos 9) (pos 100) (ground arith)

equal_scores_trap_example :
    to_any_object plain_keys
      (game_of {U = ℕ} 7 (1 ∷ 2 ∷ []) (3 ∷ 4 ∷ []) (pos 9) (pos 9) 1 (pos 100))
    ≡ none
equal_scores_trap_example =
    equal_scores_trap plain_keys whole_keys-IsEquality plain_keys-IsKeys
      (game_of {U = ℕ} 7 (1 ∷ 2 ∷ []) (3 ∷ 4 ∷ []) (pos 9) (pos 9) 1 (pos 100)) (pos 9) refl refl
