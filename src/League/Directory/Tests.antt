-- ===== src/League/Directory/Tests.antt =====
-- A league of one player, who arrives and takes another name.
use mathlib.Core.Option
use league_ranker.Prelude.{ℕ, ◌≡◌, refl, [], ◌∷◌, some, arith}
use league_ranker.Swift.Int.{pos}
use league_ranker.Swift.Dictionary.{get, put, remove}
use league_ranker.Swift.Sorting.{plain, insertion_sort}
use league_ranker.TrueSkill.Rating.{rating}
use league_ranker.TrueSkill.Sample.{whole_double, whole_keys, whole_keys-IsEquality, rated}
use league_ranker.League.PlayerForm.{PlayerForm}
use league_ranker.League.Players.{
  LeaguePlayers, sort_players, rank_sorted, sorted_values, set_rank, rank_from,
}
use league_ranker.League.Directory.{
  Texts, Values, build_self, child_added, report, player_at_id, player_at_display_name,
}
use league_ranker.League.Directory.Sorted.{unranked}
use league_ranker.League.Directory.Found.{report_found, renamed_still_found}
use league_ranker.League.Directory.Reach.{nobody, added, reported, start, next}
use league_ranker.League.Directory.Invariant.{Reach-found}

abbrev texts : Texts ℕ
texts = record { user = 70; empty = 0; john = 90 }

abbrev values : ℕ → Values ℕ ℕ
values name = record {
  mu = 26;
  sigma = 7;
  display_name = name;
  real_name = 91;
  phone_number = 51;
  wins = pos 4;
  losses = pos 1;
}

abbrev known : PlayerForm ℕ ℕ
known = record {
  id = 1;
  display_name = 71;
  phone_number = 51;
  real_name = 91;
  rank = 1;
  rating = rated 25;
  wins = pos 3;
  losses = pos 1;
}

abbrev before : LeaguePlayers ℕ ℕ
before = record {
  sorted_players = 1 ∷ [];
  phone_number_to_uid = (51, 1) ∷ [];
  display_name_to_user_id = (71, 1) ∷ [];
  players = (1, known) ∷ [];
}

abbrev after : LeaguePlayers ℕ ℕ
after = record before {
  display_name_to_user_id = (71, 1) ∷ (72, 1) ∷ [];
  players = (1, build_self (values 72) known) ∷ [];
}

report_found_example :
    Option.map unranked (player_at_display_name after 72)
    ≡ some (unranked (build_self (values 72) known))
unfolding report sort_players insertion_sort rank_sorted sorted_values set_rank get rank_from put
    remove build_self
report_found_example =
    report_found plain whole_keys-IsEquality (some (pos 3)) 1 (values 72) before refl refl

renamed_still_found_example :
    Option.map unranked (player_at_display_name after 71)
    ≡ some (unranked (build_self (values 72) known))
unfolding report sort_players insertion_sort rank_sorted sorted_values set_rank get rank_from put
    remove build_self
renamed_still_found_example =
    renamed_still_found plain whole_keys-IsEquality (some (pos 3)) 1 71 (values 72) before
      (λ j p found. ground arith) refl refl refl refl refl

abbrev newcomer : PlayerForm ℕ ℕ
newcomer = record {
  id = 1;
  display_name = 72;
  phone_number = 51;
  real_name = 91;
  rank = 1;
  rating = record { mean = 26; standard_deviation = 7; conservative_multiplier = 3 };
  wins = pos 4;
  losses = pos 1;
}

abbrev playing : LeaguePlayers ℕ ℕ
playing = record {
  sorted_players = 1 ∷ [];
  phone_number_to_uid = (51, 1) ∷ [];
  display_name_to_user_id = (72, 1) ∷ [];
  players = (1, newcomer) ∷ [];
}

Reach-found_example : (player_at_display_name playing 72 ≡ some newcomer) × (newcomer.id ≡ 1)
unfolding report child_added nobody sort_players insertion_sort rank_sorted sorted_values set_rank
    get rank_from put remove player_at_id rating
Reach-found_example =
    Reach-found plain whole_keys-IsEquality 1
      (next (next (start refl refl) (added (some (pos 3)) texts 1 refl refl)) (
        reported (some (pos 3)) 1 (values 72) (λ j q marked other found. ground arith)
          (λ j q marked other found. ground arith) refl refl))
      refl refl
