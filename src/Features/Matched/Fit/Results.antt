-- ===== src/Features/Matched/Fit/Results.antt =====
-- The results of FitConditionalLogitForSessions in internal/features/matched.go.
use dayz_behaviour.Prelude.{
  ℕ, zero, suc, ◌<◌, ◌≡◌, ◌⊎◌, refl, sym, subst, Bool, true, false, List, String, length, ltb,
  arith, inl, inr, Bool-cases,
}
use dayz_behaviour.Floats.{Floats}
use dayz_behaviour.Features.Matched.{
  MatchedStratum, ConditionalLogitResult, Sufficient, useful_strata_of, total_observations,
}
use dayz_behaviour.Features.Matched.Fit.{
  fit_conditional_logit_for_sessions, conclude, newton, no_estimate, max_iterations, moments_at,
  clamp_step,
}

module _ (fl : Floats) where
  open fl use {F, lt, le, add, sub, mul, div, sqrt, abs, exp, of_int, ratio}

  -- `beta` is where a small last step from some `last` leads, on enough information
  pub record IsReached (useful : List Sufficient) (beta : F) : Type 0 where
    pub last : F
    pub informed : lt (moments_at fl useful last).information (ratio 1 10000000000) ≡ false
    pub small :
        let m = moments_at fl useful last in
        lt (abs (clamp_step fl (div m.score m.information))) (ratio 1 100000000) ≡ true
    pub moved :
        let m = moments_at fl useful last in
        beta ≡ add last (clamp_step fl (div m.score m.information))
    pub bounded : lt (of_int 20) (abs beta) ≡ false

  -- no estimate is given
  pub record IsEmpty (r : ConditionalLogitResult F) : Type 0 where
    pub log_odds : r.log_odds_ratio ≡ of_int 0
    pub odds : r.odds_ratio ≡ of_int 0
    pub lower : r.lower95 ≡ of_int 0
    pub upper : r.upper95 ≡ of_int 0
    pub error : r.standard_error ≡ of_int 0

  -- The estimates are those at the log odds ratio, where the information is positive.
  pub record IsEstimate (useful : List Sufficient) (r : ConditionalLogitResult F) : Type 0 where
    pub not_separated : r.separated ≡ false
    pub has_strata : 0 < length useful
    pub counted : r.useful_strata ≡ length useful
    pub reached : IsReached useful r.log_odds_ratio
    pub informative : le (moments_at fl useful r.log_odds_ratio).information (of_int 0) ≡ false
    pub error :
        r.standard_error ≡ div (of_int 1) (sqrt (moments_at fl useful r.log_odds_ratio).information)
    pub odds : r.odds_ratio ≡ exp r.log_odds_ratio
    pub lower : r.lower95 ≡ exp (sub r.log_odds_ratio (mul (ratio 196 100) r.standard_error))
    pub upper : r.upper95 ≡ exp (add r.log_odds_ratio (mul (ratio 196 100) r.standard_error))

  -- a result that is converged or not, and what it gives then
  abbrev pub IsSound : List Sufficient → ConditionalLogitResult F → Type 0
  IsSound useful r =
      ((r.converged ≡ true) × IsEstimate useful r) ⊎ ((r.converged ≡ false) × IsEmpty r)

  module _ (useful : List Sufficient) (r : ConditionalLogitResult F) (fresh : r.converged ≡ false)
      (empty : IsEmpty r) where
    -- the loop sets one flag at most, and only where it ends
    abbrev Ended : ConditionalLogitResult F × F → Type 0
    Ended (s, beta) =
        ((s.converged ≡ false) × IsEmpty s)
        ⊎ (s ≡ record r { converged = true }) × IsReached useful beta

    flagged-IsEmpty : {c d : Bool} → IsEmpty (record r { separated = c; converged = d })
    flagged-IsEmpty = record {
      log_odds = empty.log_odds;
      odds = empty.odds;
      lower = empty.lower;
      upper = empty.upper;
      error = empty.error;
    }

    newton-Ended : (fuel : ℕ) (beta : F) → Ended (newton fl useful fuel beta r)
    unfolding newton
    newton-Ended zero beta = inl (fresh, empty)
    newton-Ended (suc fuel) beta =
        let m = moments_at fl useful beta in
        let step = clamp_step fl (div m.score m.information) in
        elim (Bool-cases (lt m.information (ratio 1 10000000000))) [
          | inl flat ↦ rw (flat, newton) (inl (fresh, flagged-IsEmpty))
          | inr steep ↦ elim (Bool-cases (lt (of_int 20) (abs (add beta step)))) [
            | inl far ↦ rw (steep, far, newton) (inl (fresh, flagged-IsEmpty))
            | inr near ↦ elim (Bool-cases (lt (abs step) (ratio 1 100000000))) [
              | inl done ↦
                  rw (steep, near, done, newton)
                    (inr (
                      refl,
                      record {
                        last = beta;
                        informed = steep;
                        small = done;
                        moved = refl;
                        bounded = near;
                      },
                    ))
              | inr more ↦ rw (steep, near, more, newton) (newton-Ended fuel (add beta step))
            ]
          ]
        ]

    conclude-IsSound :
        (p : ConditionalLogitResult F × F)
        → Ended p
        → r.separated ≡ false
        → 0 < length useful
        → r.useful_strata ≡ length useful
        → IsSound useful (conclude fl useful p)
    unfolding conclude
    conclude-IsSound (s, beta) (inl (not_yet, nothing)) whole some_left counted =
        let same : conclude fl useful (s, beta) ≡ s = rw (not_yet) refl in
        subst (IsSound useful) (sym same) (inr (not_yet, nothing))
    conclude-IsSound (s, beta) (inr (same, reached)) whole some_left counted =
        elim (Bool-cases (le (moments_at fl useful beta).information (of_int 0))) [
          | inl flat ↦ rw (same, flat, conclude) (inr (refl, flagged-IsEmpty))
          | inr steep ↦
              rw (same, steep, conclude)
                (inl (
                  refl,
                  record {
                    not_separated = whole;
                    has_strata = some_left;
                    counted = counted;
                    reached = reached;
                    informative = steep;
                    error = refl;
                    odds = refl;
                    lower = refl;
                    upper = refl;
                  },
                ))
        ]

  -- A fit is either reported as converged, and then it is not separated, rests on at least one
  -- useful stratum, and reports a log odds ratio of at most 20 in size that a Newton step below
  -- 1e-8 reached from a point with information of at least 1e-10, where the information is
  -- positive and gives the standard error, the odds ratio and its 95 % bounds; or it is not
  -- converged, and the ratios, the bounds and the error are 0.
  pub fit_conditional_logit_for_sessions-IsSound :
      (player : String) (ids : List String) (strata : List (MatchedStratum F))
      → IsSound
          (useful_strata_of ids strata)
          (fit_conditional_logit_for_sessions fl player ids strata)
  unfolding fit_conditional_logit_for_sessions no_estimate
  fit_conditional_logit_for_sessions-IsSound player ids strata =
      let useful = useful_strata_of ids strata in
      let r = no_estimate fl player (length useful) (total_observations useful) in
      let empty : IsEmpty r = record {
        log_odds = refl;
        odds = refl;
        lower = refl;
        upper = refl;
        error = refl;
      } in
      elim (Bool-cases (ltb 0 (length useful))) [
        | inl e ↦ rw (e) (
            conclude-IsSound useful r refl empty (newton fl useful max_iterations (of_int 0) r)
              (newton-Ended useful r refl empty max_iterations (of_int 0)) refl (ground arith) refl)
        | inr e ↦ rw (e) (inr (refl, empty))
      ]
