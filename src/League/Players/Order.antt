-- ===== src/League/Players/Order.antt =====
-- The order in which sortPlayers puts the players, and the coarser one by which it ranks them.
use league_ranker.Prelude.{ℕ, ◌≡◌, Bool, true, false, arith, if◌then◌else◌}
use league_ranker.Swift.Int.{ℤ, ltb_ℤ, leb_ℤ}
use league_ranker.Swift.Order.{IsStrictWeak}
use league_ranker.TrueSkill.Double.{Double, ◌*◌, ◌/◌, whole}
use league_ranker.League.PlayerForm.{PlayerForm, games, enough_games}
use league_ranker.League.Players.{ahead, shown, next_count}

-- A function on doubles that gives a number for a number and never turns two of them round.
pub record IsMonotone {W : Type 0} ⦃d : Double W⦄ (f : W → W) : Type 0 where
  pub number : (x : W) → d.eq x x ≡ true → d.eq (f x) (f x) ≡ true
  pub keeps :
      (x y : W) → d.eq x x ≡ true → d.eq y y ≡ true → d.lt (f x) (f y) ≡ true → d.lt x y ≡ true

-- IEEE 754 on the values other than NaN, the only one that is not `==` itself.
pub record IsIeee (W : Type 0) ⦃d : Double W⦄ : Type 0 where
  pub lt_asym : (x y : W) → d.lt x y ≡ true → d.lt y x ≡ false
  pub lt_chains :
      (x y z : W)
      → d.eq x x ≡ true
      → d.eq y y ≡ true
      → d.eq z z ≡ true
      → d.lt x y ≡ false
      → d.lt y z ≡ false
      → d.lt x z ≡ false
  pub times_hundred : IsMonotone {W = W} (λ x. x * whole 100)
  pub rounding : IsMonotone {W = W} d.round
  pub over_hundred : IsMonotone {W = W} (λ x. x / whole 100)

module _ {S W : Type 0} ⦃d : Double W⦄ where
  -- A player with a mean that is a number.
  abbrev pub HasMean : PlayerForm S W → Type 0
  HasMean p = d.eq p.rating.mean p.rating.mean ≡ true

  -- Whether q is to be ranked before p: among players short of games the one with more games, anyone
  -- with enough games before those, and among these the higher mean, as it is shown.
  unfoldable pub better : ℤ → PlayerForm S W → PlayerForm S W → Bool
  better num_placements q p =
      if leb_ℤ num_placements (games q)
      then if leb_ℤ num_placements (games p) then d.lt (shown p) (shown q) else true
      else if leb_ℤ num_placements (games p)
      then false
      else ltb_ℤ (games p) (games q)

  module _ (laws : IsIeee W) (n : ℤ) where
    shown_number : (p : PlayerForm S W) → HasMean p → d.eq (shown p) (shown p) ≡ true
    unfolding shown
    shown_number p v =
        laws.over_hundred.number _ (laws.rounding.number _ (laws.times_hundred.number _ v))

    shown_keeps :
        (p q : PlayerForm S W)
        → HasMean p
        → HasMean q
        → d.lt (shown p) (shown q) ≡ true
        → d.lt p.rating.mean q.rating.mean ≡ true
    unfolding shown
    shown_keeps p q vp vq h =
        let np = laws.times_hundred.number _ vp in
        let nq = laws.times_hundred.number _ vq in
        let rp = laws.rounding.number _ np in
        let rq = laws.rounding.number _ nq in
        laws.times_hundred.keeps _ _ vp vq
          (laws.rounding.keeps _ _ np nq (laws.over_hundred.keeps _ _ rp rq h))

    pub ahead-IsStrictWeak : IsStrictWeak HasMean (ahead n)
    unfolding ahead
    ahead-IsStrictWeak = record {
      asymmetric = λ a b va vb h. ground (arith, laws.lt_asym b.rating.mean a.rating.mean);
      chains = λ a b c va vb vc h k.
          ground (arith, laws.lt_chains c.rating.mean b.rating.mean a.rating.mean vc vb va);
    }

    pub better-IsStrictWeak : IsStrictWeak HasMean (better n)
    unfolding better
    better-IsStrictWeak = record {
      asymmetric = λ a b va vb h. ground (arith, laws.lt_asym (shown b) (shown a));
      chains = λ a b c va vb vc h k. ground (
        arith,
        laws.lt_chains (shown c) (shown b) (shown a) (shown_number c vc) (shown_number b vb)
            (shown_number a va),
      );
    }

    -- Who is better comes first.
    pub better-ahead :
        (p q : PlayerForm S W) → HasMean p → HasMean q → ahead n p q ≡ false → better n p q ≡ false
    unfolding better ahead
    better-ahead p q vp vq h = ground (arith, shown_keeps q p vq vp)

  -- Behind a player in the order, the loop's test is that of `better`.
  pub next_count-better :
      (n : ℤ) (i count : ℕ) (p2 p1 : PlayerForm S W)
      → ahead n p1 p2 ≡ false
      → next_count n i count p2 p1 ≡ (if better n p2 p1 then i else count)
  unfolding next_count better ahead enough_games
  next_count-better n i count p2 p1 h = ground arith
