-- ===== src/TrueSkill/Double.antt =====
-- What the app does with a Double: the arithmetic of the processor and the functions of Foundation
-- are arguments of the model. The operators are those of the source.
use league_ranker.Prelude.{ℕ, Bool}
use league_ranker.Swift.Int.{ℤ}

pub record Double (W : Type 0) : Type 0 where
  -- The literal of these digits, of which so many stand behind the point.
  pub literal : ℕ → ℕ → W
  -- `Double(n)`
  pub of_int : ℤ → W
  pub pi : W
  pub add : W → W → W
  pub sub : W → W → W
  pub mul : W → W → W
  pub div : W → W → W
  pub neg : W → W
  pub abs : W → W
  pub sqrt : W → W
  pub exp : W → W
  pub log : W → W
  pub pow : W → W → W
  pub round : W → W
  pub lt : W → W → Bool
  pub le : W → W → Bool
  pub eq : W → W → Bool

module _ {W : Type 0} ⦃d : Double W⦄ where
  infixl 65 ◌+◌ ◌-◌
  infixl 70 ◌*◌ ◌/◌
  abbrev pub ◌+◌ : W → W → W
  a + b = d.add a b

  abbrev pub ◌-◌ : W → W → W
  a - b = d.sub a b

  abbrev pub ◌*◌ : W → W → W
  a * b = d.mul a b

  abbrev pub ◌/◌ : W → W → W
  a / b = d.div a b

  -- A literal without a point.
  abbrev pub whole : ℕ → W
  whole n = d.literal n 0

  -- `Square`
  unfoldable pub square : W → W
  square x = x * x
