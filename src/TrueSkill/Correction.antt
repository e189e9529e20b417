-- ===== src/TrueSkill/Correction.antt =====
-- TruncatedGaussianCorrectionFunctions.swift.
use league_ranker.Prelude.{if◌then◌else◌}
use league_ranker.TrueSkill.Double.{Double, ◌+◌, ◌-◌, ◌*◌, ◌/◌, whole}
use league_ranker.TrueSkill.Gaussian.{at, cumulative_to}

module _ {W : Type 0} ⦃d : Double W⦄ where
  -- The denominator below which a function takes its limit.
  pub smallest : W
  smallest = d.literal 2222758749 171

  -- `VExceedsMargin`
  pub v_exceeds_margin : W → W → W → W
  unfolding smallest
  v_exceeds_margin difference margin c =
      let tp_diff = difference / c in
      let dm = margin / c in
      let denominator = cumulative_to (tp_diff - dm) in
      if d.lt denominator smallest then tp_diff + dm else at (tp_diff - dm) / denominator

  -- `WExceedsMargin`
  pub w_exceeds_margin : W → W → W → W
  unfolding smallest v_exceeds_margin
  w_exceeds_margin difference margin c =
      let tp_diff = difference / c in
      let dm = margin / c in
      let denominator = cumulative_to (tp_diff - dm) in
      if d.lt denominator smallest
      then if d.lt tp_diff (d.literal 0 1) then d.literal 10 1 else d.literal 0 1
      else let v_win = v_exceeds_margin tp_diff dm (whole 1) in v_win * (v_win + tp_diff - dm)

  -- `VWithinMargin`
  pub v_within_margin : W → W → W → W
  unfolding smallest
  v_within_margin difference margin c =
      let tp_diff = difference / c in
      let dm = margin / c in
      let absolute = d.abs tp_diff in
      let denominator = cumulative_to (dm - absolute) - cumulative_to (d.neg dm - absolute) in
      if d.lt denominator smallest
      then if d.lt tp_diff (d.literal 0 1) then d.neg tp_diff - dm else d.neg tp_diff + dm
      else let numerator = at (d.neg dm - absolute) - at (dm - absolute) in
        if d.lt tp_diff (d.literal 0 1)
        then d.neg numerator / denominator
        else numerator / denominator

  -- `WWithinMargin`
  pub w_within_margin : W → W → W → W
  unfolding v_within_margin
  w_within_margin difference margin c =
      let tp_diff = difference / c in
      let dm = margin / c in
      let absolute = d.abs tp_diff in
      let denominator = cumulative_to (dm - absolute) - cumulative_to (d.neg dm - absolute) in
      let vt = v_within_margin absolute dm (whole 1) in
      vt * vt
      + ((dm - absolute) * at (dm - absolute) - (d.neg dm - absolute) * at (d.neg dm - absolute))
        / denominator
