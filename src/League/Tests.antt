-- ===== src/League/Tests.antt =====
-- Runs of the league's code, and theorems on it at a small league.
use mathlib.Core.Option
use mathlib.Core.List.{Permᴰ}
use league_ranker.Prelude.{ℕ, ◌+◌, ◌≡◌, refl, List, [], ◌∷◌, some, map, arith, if◌then◌else◌}
use league_ranker.Swift.Int.{pos, ◌+ℤ◌}
use league_ranker.Swift.Order.{IsOrdered}
use league_ranker.Swift.Dictionary.{get, put}
use league_ranker.Swift.Sorting.{plain, plain-IsStandard, insertion_sort}
use league_ranker.TrueSkill.Sample.{whole_double, whole_keys, whole_keys-IsEquality, rated}
use league_ranker.League.PlayerForm.{PlayerForm, games, enough_games}
use league_ranker.League.Players.{
  LeaguePlayers, ahead, sort_players, rank_sorted, sorted_values, set_rank, rank_from, next_count,
  shown,
}
use league_ranker.League.Players.Order.{IsIeee}
use league_ranker.League.Players.Ranks.{values_of}
use league_ranker.League.Players.Ranked.{with_rank, place, sort_players_ranks}
use league_ranker.League.Autocomplete.{datasource_for_autocomplete}
use league_ranker.League.Autocomplete.Unique.{
  is_displayed, bearers, sole, datasource_for_autocomplete_exact,
}

ℕ-IsIeee : IsIeee ℕ
ℕ-IsIeee = record {
  lt_asym = λ x y h. ground arith;
  lt_chains = λ x y z _ _ _ h k. ground arith;
  times_hundred = record { number = λ x h. ground arith; keeps = λ x y h k l. ground arith };
  rounding = record { number = λ x h. h; keeps = λ x y h k l. l };
  over_hundred = record { number = λ x h. ground arith; keeps = λ x y h k l. ground arith };
}

abbrev player : ℕ → ℕ → ℕ → ℕ → ℕ → PlayerForm ℕ ℕ
player id name real mean won = record {
  id = id;
  display_name = name;
  phone_number = 50 + id;
  real_name = real;
  rank = 1;
  rating = rated mean;
  wins = pos won;
  losses = pos 0;
}

-- Two players share the real name 90; the last one has too few games to be placed.
abbrev league : LeaguePlayers ℕ ℕ
league = record {
  sorted_players = [];
  phone_number_to_uid = [];
  display_name_to_user_id = [];
  players =
      (1, player 1 71 91 20 5)
      ∷ (2, player 2 72 90 30 5)
      ∷ (3, player 3 73 90 30 5)
      ∷ (4, player 4 74 92 99 1)
      ∷ [];
}

sort_players_ranks_example :
    (s' : LeaguePlayers ℕ ℕ) × (sort_players plain (some (pos 3)) league ≡ some s')
    × ((id : ℕ)
        → get s'.players id
          ≡ Option.map (λ p. with_rank p (place (pos 3) league.players p)) (get league.players id))
    × (ps : List (PlayerForm ℕ ℕ)) × (s'.sorted_players ≡ map (λ (p : PlayerForm ℕ ℕ). p.id) ps)
    × Permᴰ ps (values_of league.players)
    × IsOrdered (ahead (pos 3)) ps
sort_players_ranks_example =
    sort_players_ranks plain plain-IsStandard ℕ-IsIeee whole_keys-IsEquality (pos 3) league
      (record {
        once = ((refl, (refl, (refl, tt))), ((refl, (refl, tt)), ((refl, tt), (tt, tt))));
        own_id = (refl, (refl, (refl, (refl, tt))));
        means = (refl, (refl, (refl, (refl, tt))));
      })
      (omega arith)

-- Players 2 and 3 share the first rank, player 1 has the third, and player 4 is behind.
ranks_of_league :
    Option.map
      (λ (s : LeaguePlayers ℕ ℕ). map (λ (e : ℕ × PlayerForm ℕ ℕ). e.1.rank) s.players)
      (sort_players plain (some (pos 3)) league)
    ≡ some (3 ∷ 1 ∷ 1 ∷ 4 ∷ [])
unfolding sort_players insertion_sort rank_sorted sorted_values ahead games ◌+ℤ◌ set_rank get
    rank_from put next_count enough_games shown
ranks_of_league = refl

-- The autocomplete offers the display names and the real names 91 and 92.
datasource_for_autocomplete_exact_example :
    get (datasource_for_autocomplete (values_of league.players)) 90 ≡ (
      if is_displayed (values_of league.players) 90
      then some 90
      else sole (bearers (values_of league.players) 90))
datasource_for_autocomplete_exact_example =
    datasource_for_autocomplete_exact whole_keys-IsEquality (values_of league.players) 90
