-- ===== src/Ranking.antt =====
-- internal/ranking/policy.go: the review tier of a player, decided by gates.
pub mod Tiers
mod Witness
use dayz_behaviour.Prelude.{
  ℕ, Bool, true, false, ◌&&◌, ◌||◌, not, Option, none, some, List, [], ◌∷◌, ◌++◌, ltb, leb,
  if◌then◌else◌,
}
use dayz_behaviour.Floats.{Floats}
use dayz_behaviour.Features.Readiness.{ReadinessResult}
use dayz_behaviour.Features.Validation.{NegativeControlResult}
use dayz_behaviour.Features.Matched.{ConditionalLogitResult}
use dayz_behaviour.Features.Stability.{StabilityResult}

pub data Tier : Type 0 where
  insufficient_data monitor review high_priority : Tier

-- one constructor for each reason that the code spells
pub data TierReason : Type 0 where
  few_trials few_sessions few_encounters few_targets : TierReason
  breadth_passed review_passed high_passed evidence_passed : TierReason
  evidence_failed controls_failed : TierReason

pub record Decision : Type 0 where
  pub tier : Tier
  pub reasons : List TierReason

pub record Gates (F : Type 0) : Type 0 where
  pub minimum_hidden_trials : ℕ
  pub minimum_sessions : ℕ
  pub minimum_encounters : ℕ
  pub minimum_targets : ℕ
  pub review_lift_lower_bound : F
  pub high_lift_lower_bound : F

abbrev is_nil {ℓ} : {A : Type ℓ} → List A → Bool
is_nil [] = true
is_nil (x ∷ xs) = false

abbrev note_if : Bool → TierReason → List TierReason
note_if b r = if b then r ∷ [] else []

pub breadth_reasons : {F : Type 0} → ReadinessResult F → Gates F → List TierReason
breadth_reasons r g =
    note_if (ltb r.hidden_trials g.minimum_hidden_trials) few_trials
    ++ (note_if (ltb r.independent_session_count g.minimum_sessions) few_sessions
        ++ (note_if (ltb r.independent_encounter_count g.minimum_encounters) few_encounters
            ++ note_if (ltb r.independent_target_count g.minimum_targets) few_targets))

is_high : Tier → Bool
is_high high_priority = true
is_high _ = false

module _ (fl : Floats) where
  open fl use {F, lt, le, of_int, ratio}

  pub default_gates : Gates F
  default_gates = record {
    minimum_hidden_trials = 20;
    minimum_sessions = 3;
    minimum_encounters = 5;
    minimum_targets = 5;
    review_lift_lower_bound = ratio 5 100;
    high_lift_lower_bound = ratio 15 100;
  }

  -- the matched model and the stability check that a high priority needs
  pub evidence_holds : ConditionalLogitResult F → StabilityResult F → Bool
  evidence_holds m s =
      m.converged
      && (not m.separated
          && (leb 3 m.useful_strata && (lt (of_int 1) m.lower95 && s.direction_stable)))

  -- the last `if` of apply; the two pointers are nil together or not
  promote : Option (ConditionalLogitResult F × StabilityResult F) → Decision → Decision
  promote none d = record { tier = high_priority; reasons = d.reasons ++ high_passed ∷ [] }
  promote (some (m, s)) d =
      if evidence_holds m s
      then record { tier = high_priority; reasons = d.reasons ++ evidence_passed ∷ [] }
      else record d { reasons = d.reasons ++ evidence_failed ∷ [] }

  review_gate : Bool → Decision
  review_gate passed =
      if passed
      then record { tier = review; reasons = breadth_passed ∷ review_passed ∷ [] }
      else record { tier = monitor; reasons = breadth_passed ∷ [] }

  pub decide :
      ReadinessResult F → Option (ConditionalLogitResult F × StabilityResult F) → Gates F → Decision
  unfolding promote review_gate
  decide r evidence g =
      let lacking = breadth_reasons r g in
      let gated = review_gate (le g.review_lift_lower_bound r.readiness_lift_lower_bound) in
      if not (is_nil lacking)
      then record { tier = insufficient_data; reasons = lacking }
      else if le g.high_lift_lower_bound r.readiness_lift_lower_bound
      then promote evidence gated
      else gated

  pub apply : ReadinessResult F → Gates F → Decision
  apply r g = decide r none g

  pub apply_evidence :
      ReadinessResult F → ConditionalLogitResult F → StabilityResult F → Gates F → Decision
  apply_evidence r m s g = decide r (some (m, s)) g

  pub apply_validated_evidence :
      ReadinessResult F
      → ConditionalLogitResult F
      → StabilityResult F
      → NegativeControlResult F
      → Gates F
      → Decision
  unfolding decide is_high
  apply_validated_evidence r m s controls g =
      let d = decide r (some (m, s)) g in
      if is_high d.tier && not controls.passed
      then record { tier = review; reasons = d.reasons ++ controls_failed ∷ [] }
      else d
