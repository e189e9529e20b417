-- ===== src/League/PlayerForm.antt =====
-- PlayerForm.swift: a player of a league. Strings are a type with `==`.
use league_ranker.Prelude.{ℕ, Bool}
use league_ranker.Swift.Int.{ℤ, ◌+ℤ◌, leb_ℤ}
use league_ranker.TrueSkill.Rating.{Rating}

-- The fields that the league reads.
pub record PlayerForm (S W : Type 0) : Type 0 where
  pub id : S
  pub display_name : S
  pub phone_number : S
  pub real_name : S
  pub rank : ℕ
  pub rating : Rating W
  pub wins : ℤ
  pub losses : ℤ

module _ {S W : Type 0} where
  -- `wins + losses`
  unfoldable pub games : PlayerForm S W → ℤ
  games p = p.wins +ℤ p.losses

  -- `enoughGames`
  unfoldable pub enough_games : ℤ → PlayerForm S W → Bool
  unfolding games
  enough_games num_placements p = leb_ℤ num_placements (games p)
