-- ===== src/TrueSkill/Gaussian.antt =====
-- The normal distribution, GaussianDistribution.swift, as far as the calculators use it, and
-- DrawMargin.swift.
use league_ranker.Prelude.{List, [], ◌∷◌, if◌then◌else◌}
use league_ranker.TrueSkill.Double.{Double, ◌+◌, ◌-◌, ◌*◌, ◌/◌, whole, square}

module _ {W : Type 0} ⦃d : Double W⦄ where
  -- `At`
  pub at : W → W
  at x =
      let mean = whole 0 in
      let standard_deviation = whole 1 in
      let multiplier = d.literal 10 1 / (standard_deviation * d.sqrt (whole 2 * d.pi)) in
      let exp_part = d.exp (
        d.neg (whole 1)
        * d.pow (x - mean) (d.literal 20 1)
        / (whole 2 * square standard_deviation)) in
      multiplier * exp_part

  -- `coeffecients` behind the first one.
  pub coefficients : List W
  coefficients =
      d.literal 64196979235649026 17
      ∷ d.literal 19476473204185836 18
      ∷ d.neg (d.literal 9561514786808631 18)
      ∷ d.neg (d.literal 946595344482036 18)
      ∷ d.literal 366839497852761 18
      ∷ d.literal 42523324806907 18
      ∷ d.neg (d.literal 20278578112534 18)
      ∷ d.neg (d.literal 1624290004647 18)
      ∷ d.literal 1303655835580 18
      ∷ d.literal 15626441722 18
      ∷ d.neg (d.literal 85238095915 18)
      ∷ d.literal 6529054439 18
      ∷ d.literal 5059343495 18
      ∷ d.neg (d.literal 991364156 18)
      ∷ d.neg (d.literal 227365122 18)
      ∷ d.literal 96467911 18
      ∷ d.literal 2394038 18
      ∷ d.neg (d.literal 6886027 18)
      ∷ d.literal 894487 18
      ∷ d.literal 313092 18
      ∷ d.neg (d.literal 112708 18)
      ∷ d.literal 381 18
      ∷ d.literal 7106 18
      ∷ d.neg (d.literal 1523 18)
      ∷ d.neg (d.literal 94 18)
      ∷ d.literal 121 18
      ∷ d.neg (d.literal 28 18)
      ∷ []

  -- The loop from the last coefficient on; gives `d` and `dd`.
  pub series : W → List W → W × W
  series ty [] = (d.literal 0 1, d.literal 0 1)
  series ty (c ∷ cs) = let (sum, previous) = series ty cs in (ty * sum - previous + c, sum)

  -- `ErrorFunctionCumulativeTo`
  pub error_function_cumulative_to : W → W
  unfolding coefficients series
  error_function_cumulative_to x =
      let z = d.abs x in
      let t = d.literal 20 1 / (d.literal 20 1 + z) in
      let ty = whole 4 * t - whole 2 in
      let (sum, previous) = series ty coefficients in
      let half = (d.neg (d.literal 13026537197817094 16) + ty * sum) / whole 2 in
      let inside_exp = d.neg z * z + half - previous in
      let ans = t * d.exp inside_exp in if d.le (d.literal 0 1) x then ans else d.literal 20 1 - ans

  -- `CumulativeTo`
  pub cumulative_to : W → W
  unfolding error_function_cumulative_to
  cumulative_to x =
      let invsqrt2 = d.neg (d.literal 707106781186547524400844362104 30) in
      d.literal 5 1 * error_function_cumulative_to (invsqrt2 * x)

  -- A round of the loop of `InverseErrorFunctionCumulativeTo`.
  pub halley : W → W → W
  unfolding error_function_cumulative_to
  halley pp x =
      let err = error_function_cumulative_to x - pp in
      x + err / (d.literal 112837916709551257 17 * d.exp (d.neg (square x)) - x * err)

  -- `InverseErrorFunctionCumulativeTo`
  pub inverse_error_function_cumulative_to : W → W
  unfolding halley
  inverse_error_function_cumulative_to p =
      if d.le (d.literal 20 1) p
      then d.neg (whole 100)
      else if d.le p (d.literal 0 1)
      then whole 100
      else let pp = if d.lt p (d.literal 10 1) then whole 2 - p else p in
        let t = d.sqrt (d.neg (whole 2) * d.log (pp / d.literal 20 1)) in
        let guess =
          d.neg (d.literal 70711 5)
          * ((d.literal 230753 5 + t * d.literal 27061 5)
                / (d.literal 10 1 + t * (d.literal 99229 5 + t * d.literal 4481 5))
              - t) in
        let x = halley pp (halley pp guess) in if d.lt (d.literal 10 1) p then x else d.neg x

  -- `InverseCumulativeTo`
  pub inverse_cumulative_to : W → W
  unfolding inverse_error_function_cumulative_to
  inverse_cumulative_to x =
      let mean = whole 0 in
      let standard_deviation = whole 1 in
      mean
      - d.sqrt (whole 2) * standard_deviation * inverse_error_function_cumulative_to (whole 2 * x)

  -- `GetDrawMarginFromDrawProbability`
  pub draw_margin : W → W → W
  unfolding inverse_cumulative_to
  draw_margin draw_probability beta =
      inverse_cumulative_to (d.literal 5 1 * (draw_probability + whole 1)) * d.sqrt (whole 2) * beta
