-- ===== src/TrueSkill/Sample.antt =====
-- Values at which theorems on the app are applied: whole numbers in place of doubles and of strings.
use league_ranker.Prelude.{ℕ, ◌+◌, ◌-◌, ◌*◌, ◌/◌, ◌^◌, ltb, leb, ◌==◌, ==_iff}
use league_ranker.Swift.Int.{pos_part}
use league_ranker.Swift.Dictionary.{Hashable, IsEquality}
use league_ranker.TrueSkill.Double.{Double}
use league_ranker.TrueSkill.Rating.{Rating}

instance abbrev pub whole_double : Double ℕ
whole_double = record {
  literal = λ digits decimals. digits / 10 ^ decimals;
  of_int = pos_part;
  pi = 3;
  add = ◌+◌;
  sub = ◌-◌;
  mul = ◌*◌;
  div = ◌/◌;
  neg = λ x. x;
  abs = λ x. x;
  sqrt = λ x. x;
  exp = λ x. x;
  log = λ x. x;
  pow = ◌^◌;
  round = λ x. x;
  lt = ltb;
  le = leb;
  eq = ◌==◌;
}

instance abbrev pub whole_keys : Hashable ℕ
whole_keys = record { same = ◌==◌ }

pub whole_keys-IsEquality : IsEquality ℕ
whole_keys-IsEquality = record { same_iff = ==_iff }

abbrev pub rated : ℕ → Rating ℕ
rated mean = record { mean = mean; standard_deviation = 8; conservative_multiplier = 3 }
