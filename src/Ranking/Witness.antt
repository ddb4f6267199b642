-- ===== src/Ranking/Witness.antt =====
-- The theorems on the tiers, at a player with enough evidence.
use dayz_behaviour.Prelude.{ℕ, ◌≡◌, ◌≢◌, refl, true, false, []}
use dayz_behaviour.Floats.Examples.{whole_floats}
use dayz_behaviour.Features.Readiness.{ReadinessResult}
use dayz_behaviour.Features.Matched.{ConditionalLogitResult}
use dayz_behaviour.Features.Stability.{StabilityResult}
use dayz_behaviour.Features.Validation.{NegativeControlResult, run_negative_controls}
use dayz_behaviour.Ranking.{
  Gates, insufficient_data, high_priority, apply_validated_evidence, decide, promote, review_gate,
  evidence_holds, breadth_reasons, is_high,
}
use dayz_behaviour.Ranking.Tiers.{
  HasBreadth, IsQualified, apply_validated_evidence_iff, insufficient_data_iff,
  controls_fail_closed,
}

abbrev strong : ReadinessResult ℕ
strong = record {
  player_session_id = "p1";
  hidden_successes = 20;
  hidden_trials = 25;
  control_successes = 1;
  control_trials = 30;
  hidden_posterior_mean = 9;
  hidden_lower_bound = 8;
  control_posterior_mean = 1;
  readiness_lift = 8;
  readiness_lift_lower_bound = 6;
  independent_session_count = 4;
  independent_encounter_count = 6;
  independent_target_count = 7;
}

abbrev fitted : ConditionalLogitResult ℕ
fitted = record {
  player_session_id = "p1";
  log_odds_ratio = 2;
  odds_ratio = 7;
  lower95 = 3;
  upper95 = 9;
  standard_error = 1;
  useful_strata = 4;
  observation_count = 12;
  converged = true;
  separated = false;
}

abbrev steady : StabilityResult ℕ
steady = record {
  session_count = 4;
  minimum_lift = 6;
  maximum_lift = 9;
  maximum_rank_change = 0;
  direction_stable = true;
}

abbrev clean : NegativeControlResult ℕ
clean = record { passed = true; materiality_limit = 1; checks = [] }

abbrev whole_gates : Gates ℕ
whole_gates = record {
  minimum_hidden_trials = 20;
  minimum_sessions = 3;
  minimum_encounters = 5;
  minimum_targets = 5;
  review_lift_lower_bound = 2;
  high_lift_lower_bound = 5;
}

strong-high :
    (apply_validated_evidence whole_floats strong fitted steady clean whole_gates).tier
    ≡ high_priority
unfolding apply_validated_evidence decide promote review_gate evidence_holds breadth_reasons is_high
strong-high = refl

apply_validated_evidence_iff_example :
    ((apply_validated_evidence whole_floats strong fitted steady clean whole_gates).tier
        ≡ high_priority
      → IsQualified whole_floats strong fitted steady clean whole_gates)
    × (IsQualified whole_floats strong fitted steady clean whole_gates
        → (apply_validated_evidence whole_floats strong fitted steady clean whole_gates).tier
          ≡ high_priority)
apply_validated_evidence_iff_example =
    apply_validated_evidence_iff whole_floats strong fitted steady clean whole_gates

insufficient_data_iff_example :
    ((apply_validated_evidence whole_floats strong fitted steady clean whole_gates).tier
        ≡ insufficient_data
      → ¬ HasBreadth strong whole_gates)
    × (¬ HasBreadth strong whole_gates
        → (apply_validated_evidence whole_floats strong fitted steady clean whole_gates).tier
          ≡ insufficient_data)
insufficient_data_iff_example =
    insufficient_data_iff whole_floats strong fitted steady clean whole_gates

controls_fail_closed_example :
    (apply_validated_evidence whole_floats strong fitted steady
      (run_negative_controls whole_floats [] 0)
      whole_gates).tier
    ≢ high_priority
controls_fail_closed_example =
    controls_fail_closed whole_floats strong fitted steady [] 0 whole_gates
