-- ===== src/Features/Matched/Fit.antt =====
-- internal/features/matched.go: FitConditionalLogit, on the counts of the useful strata.
pub mod Results
mod Witness
use dayz_behaviour.Prelude.{
  ℕ, zero, suc, ◌+◌, ◌-◌, ◌*◌, Bool, true, false, not, List, [], ◌∷◌, String, length, if◌then◌else◌,
  ltb, min,
}
use dayz_behaviour.Floats.{Floats}
use dayz_behaviour.Features.Matched.{
  MatchedStratum, ConditionalLogitResult, Sufficient, useful_strata_of, total_observations,
}

-- the sums over the strata: the score and the information
pub record Moments (F : Type 0) : Type 0 where
  pub score : F
  pub information : F

-- the running sums of conditionalMoments
record Weights (F : Type 0) : Type 0 where
  total : F
  first : F
  second : F

abbrev pub max_iterations : ℕ
max_iterations = 50

module _ (fl : Floats) where
  open fl use {
    F, lt, le, add, sub, mul, div, sqrt, abs, exp, lgamma, neg, of_int, ratio, minus_infinity,
  }

  pub log_choose : ℕ → ℕ → F
  log_choose n k =
      sub (sub (lgamma (of_int (n + 1))) (lgamma (of_int (k + 1)))) (lgamma (of_int ((n - k) + 1)))

  -- the logarithms for `room` counts from `count` on
  logs_from : Sufficient → F → ℕ → ℕ → List F
  logs_from v beta count zero = []
  logs_from v beta count (suc room) =
      add (add (log_choose v.hidden count) (log_choose v.control (v.outcomes - count)))
        (mul beta (of_int count))
      ∷ logs_from v beta (count + 1) room

  max_log : F → List F → F
  max_log m [] = m
  max_log m (x ∷ xs) = max_log (if lt m x then x else m) xs

  weigh : F → ℕ → List F → Weights F → Weights F
  weigh m count [] w = w
  weigh m count (x ∷ xs) w =
      let c = of_int count in
      let weight = exp (sub x m) in
      weigh m (count + 1) xs (record {
        total = add w.total weight;
        first = add w.first (mul c weight);
        second = add w.second (mul (mul c c) weight);
      })

  pub conditional_moments : Sufficient → F → F × F
  unfolding logs_from max_log weigh
  conditional_moments v beta =
      let minimum = v.outcomes - v.control in
      let maximum = min v.hidden v.outcomes in
      let logs = logs_from v beta minimum ((maximum + 1) - minimum) in
      let start : Weights F = record { total = of_int 0; first = of_int 0; second = of_int 0 } in
      let w = weigh (max_log minus_infinity logs) minimum logs start in
      let mean = div w.first w.total in (mean, sub (div w.second w.total) (mul mean mean))

  -- one loop over the strata
  pub sum_moments : List Sufficient → F → Moments F → Moments F
  sum_moments [] beta acc = acc
  sum_moments (v ∷ vs) beta acc =
      let m = conditional_moments v beta in
      sum_moments vs beta (record {
        score = add acc.score (sub (of_int v.observed_hidden) m.0);
        information = add acc.information m.1;
      })

  pub moments_at : List Sufficient → F → Moments F
  moments_at useful beta =
      sum_moments useful beta (record { score = of_int 0; information = of_int 0 })

  abbrev pub clamp_step : F → F
  clamp_step s =
      let upper = if lt (of_int 2) s then of_int 2 else s in
      if lt upper (neg (of_int 2)) then neg (of_int 2) else upper

  pub no_estimate : String → ℕ → ℕ → ConditionalLogitResult F
  no_estimate player strata observations = record {
    player_session_id = player;
    log_odds_ratio = of_int 0;
    odds_ratio = of_int 0;
    lower95 = of_int 0;
    upper95 = of_int 0;
    standard_error = of_int 0;
    useful_strata = strata;
    observation_count = observations;
    converged = false;
    separated = false;
  }

  -- the rest of the iterations, of which there are at most `fuel`: the result with its flags, and
  -- beta
  pub newton : List Sufficient → ℕ → F → ConditionalLogitResult F → ConditionalLogitResult F × F
  newton useful zero beta r = (r, beta)
  newton useful (suc fuel) beta r =
      let m = moments_at useful beta in
      let step = clamp_step (div m.score m.information) in
      let next = add beta step in
      let rest = newton useful fuel next r in
      if lt m.information (ratio 1 10000000000)
      then (record r { separated = true }, beta)
      else if lt (of_int 20) (abs next)
      then (record r { separated = true }, next)
      else if lt (abs step) (ratio 1 100000000)
      then (record r { converged = true }, next)
      else rest

  -- what is left after the loop
  pub conclude : List Sufficient → ConditionalLogitResult F × F → ConditionalLogitResult F
  conclude useful (r, beta) =
      let information = (moments_at useful beta).information in
      let se = div (of_int 1) (sqrt information) in
      if not r.converged
      then r
      else if le information (of_int 0)
      then record r { separated = true; converged = false }
      else record r {
        log_odds_ratio = beta;
        standard_error = se;
        odds_ratio = exp beta;
        lower95 = exp (sub beta (mul (ratio 196 100) se));
        upper95 = exp (add beta (mul (ratio 196 100) se));
      }

  pub fit_conditional_logit_for_sessions :
      String → List String → List (MatchedStratum F) → ConditionalLogitResult F
  fit_conditional_logit_for_sessions player session_ids strata =
      let useful = useful_strata_of session_ids strata in
      let r = no_estimate player (length useful) (total_observations useful) in
      if ltb 0 (length useful)
      then conclude useful (newton useful max_iterations (of_int 0) r)
      else r

  pub fit_conditional_logit : String → List (MatchedStratum F) → ConditionalLogitResult F
  fit_conditional_logit player strata =
      fit_conditional_logit_for_sessions player (player ∷ []) strata
