-- ===== src/League/Games/Sample.antt =====
-- The keys of a game with whole numbers for strings.
use league_ranker.Prelude.{
  ℕ, ◌+◌, ◌-◌, ◌*◌, ◌/◌, ◌%◌, ◌≡◌, refl, none, some, arith, if◌then◌else◌, ◌==◌, ltb,
}
use league_ranker.Swift.Int.{ℤ, pos, negsuc}
use league_ranker.TrueSkill.Sample.{whole_keys}
use league_ranker.League.Games.{Keys}
use league_ranker.League.Games.RoundTrip.{IsKeys}

abbrev describe : ℤ → ℕ
describe (pos n) = 2 * n + 2
describe (negsuc n) = 2 * n + 3

-- 0 stands for "inputter" and 1 for "date", and the others for numbers.
abbrev pub plain_keys : Keys ℕ
plain_keys = record {
  inputter = 0;
  date = 1;
  nothing = 0;
  description = describe;
  int_of = λ s.
      if ltb s 2
      then none
      else if s % 2 == 0
      then some (pos (s / 2 - 1))
      else some (negsuc (s / 2 - 1));
}

read_describe : (n : ℤ) → plain_keys.int_of (describe n) ≡ some n
read_describe (pos n) = ground arith
read_describe (negsuc n) = ground arith

pub plain_keys-IsKeys : IsKeys plain_keys
plain_keys-IsKeys = record {
  read_back = read_describe;
  inputter_no_number = refl;
  date_no_number = refl;
  two_keys = refl;
}
