-- ===== src/Ranking/Tiers.antt =====
-- internal/ranking/policy.go: when each tier is given.
use dayz_behaviour.Prelude.{◌≤◌, ◌≡◌, ◌≢◌, true, false, List, arith, inl, inr, ◌⊎◌, Bool-cases}
use dayz_behaviour.Floats.{Floats}
use dayz_behaviour.Features.Readiness.{ReadinessResult}
use dayz_behaviour.Features.Matched.{ConditionalLogitResult}
use dayz_behaviour.Features.Stability.{StabilityResult}
use dayz_behaviour.Features.Validation.{
  MatchedStratum, NegativeControlResult, run_negative_controls,
}
use dayz_behaviour.Features.Validation.Unavailable.{run_negative_controls-fails}
use dayz_behaviour.Ranking.{
  insufficient_data, high_priority, Gates, is_nil, breadth_reasons, evidence_holds, promote,
  review_gate, decide, is_high, apply_validated_evidence,
}

-- The evidence is broad enough: each count reaches its gate.
pub record HasBreadth {F : Type 0} (r : ReadinessResult F) (g : Gates F) : Type 0 where
  pub trials : g.minimum_hidden_trials ≤ r.hidden_trials
  pub sessions : g.minimum_sessions ≤ r.independent_session_count
  pub encounters : g.minimum_encounters ≤ r.independent_encounter_count
  pub targets : g.minimum_targets ≤ r.independent_target_count

breadth_cases :
    {F : Type 0} (r : ReadinessResult F) (g : Gates F)
    → ((is_nil (breadth_reasons r g) ≡ true) × HasBreadth r g)
      ⊎ ((is_nil (breadth_reasons r g) ≡ false) × ¬ HasBreadth r g)
unfolding breadth_reasons
breadth_cases r g = elim (Bool-cases (is_nil (breadth_reasons r g))) [
  | inl e ↦ inl (
    e,
    record {
      trials = ground arith;
      sessions = ground arith;
      encounters = ground arith;
      targets = ground arith;
    },
  )
  | inr e ↦ inr (e, λ h. ground (arith, h.trials, h.sessions, h.encounters, h.targets))
]

module _ (fl : Floats) where
  open fl use {F, lt, le, of_int, ratio}

  -- What the high priority tier needs, written without the code.
  pub record IsQualified (r : ReadinessResult F) (m : ConditionalLogitResult F)
      (s : StabilityResult F) (c : NegativeControlResult F) (g : Gates F) : Type 0 where
    pub breadth : HasBreadth r g
    pub lift : le g.high_lift_lower_bound r.readiness_lift_lower_bound ≡ true
    pub converged : m.converged ≡ true
    pub not_separated : m.separated ≡ false
    pub strata : 3 ≤ m.useful_strata
    pub odds : lt (of_int 1) m.lower95 ≡ true
    pub stable : s.direction_stable ≡ true
    pub controls : c.passed ≡ true

  module _ (r : ReadinessResult F) (m : ConditionalLogitResult F) (s : StabilityResult F)
      (c : NegativeControlResult F) (g : Gates F) where
    -- A player is ranked high priority exactly when every gate holds: the four breadth counts,
    -- the high bound on the lift, a converged and unseparated fit on at least 3 useful strata
    -- whose lower odds ratio exceeds 1, a stable direction, and passed negative controls.
    pub apply_validated_evidence_iff :
        ((apply_validated_evidence fl r m s c g).tier ≡ high_priority → IsQualified r m s c g)
        × (IsQualified r m s c g → (apply_validated_evidence fl r m s c g).tier ≡ high_priority)
    unfolding apply_validated_evidence decide is_high promote review_gate evidence_holds
    apply_validated_evidence_iff = elim (breadth_cases r g) [
      | inl (e, b) ↦ (
        λ h. record {
          breadth = b;
          lift = ground arith;
          converged = ground arith;
          not_separated = ground arith;
          strata = ground arith;
          odds = ground arith;
          stable = ground arith;
          controls = ground arith;
        },
        λ q.
            ground
              (arith, q.lift, q.converged, q.not_separated, q.strata, q.odds, q.stable, q.controls),
      )
      | inr (e, nb) ↦ (λ h. absurd (ground arith), λ q. absurd (nb q.breadth))
    ]

    -- A player is in the insufficient data tier exactly when one of the four breadth counts
    -- misses its gate.
    pub insufficient_data_iff :
        ((apply_validated_evidence fl r m s c g).tier ≡ insufficient_data → ¬ HasBreadth r g)
        × (¬ HasBreadth r g → (apply_validated_evidence fl r m s c g).tier ≡ insufficient_data)
    unfolding apply_validated_evidence decide is_high promote review_gate evidence_holds
    insufficient_data_iff = elim (breadth_cases r g) [
      | inl (e, b) ↦ (λ h. absurd (ground arith), λ nb. absurd (nb b))
      | inr (e, nb) ↦ (λ h. nb, λ q. ground arith)
    ]

  -- With the result of the negative controls that the code runs, no player is ranked high
  -- priority, whatever the strata, the limit and the rest of the evidence are.
  pub controls_fail_closed :
      (r : ReadinessResult F) (m : ConditionalLogitResult F) (s : StabilityResult F)
      (strata : List (MatchedStratum F)) (limit : F) (g : Gates F)
      → (apply_validated_evidence fl r m s (run_negative_controls fl strata limit) g).tier
        ≢ high_priority
  controls_fail_closed r m s strata limit g h =
      let q = (apply_validated_evidence_iff r m s (run_negative_controls fl strata limit) g).0 h in
      absurd (ground (arith, q.controls, run_negative_controls-fails fl strata limit))
