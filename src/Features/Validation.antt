-- ===== src/Features/Validation.antt =====
-- internal/features/validation.go: the negative controls.
pub mod Unavailable
use dayz_behaviour.Prelude.{
  ℕ, zero, suc, ◌+◌, ◌-◌, ◌/◌, ◌%◌, Bool, true, false, ◌&&◌, ◌||◌, not, Option, none, some, List,
  [], ◌∷◌, ◌++◌, String, length, ltb, leb, ◌==◌, if◌then◌else◌,
}
use dayz_behaviour.Floats.{Floats}
use dayz_behaviour.Observations.{Observation}
use dayz_behaviour.Features.Readiness.{bump}

-- internal/features/matched.go
pub record MatchedStratum (F : Type 0) : Type 0 where
  pub stratum_id : String
  pub player_session_id : String
  pub context_key : String
  pub observations : List (Observation F)
  pub control_quality : F

pub data ControlReason : Type 0 where
  no_reason needs_rotatable_stratum material_signal : ControlReason
  needs_trajectories needs_several_targets needs_headings needs_delayed_fixture : ControlReason

pub record NegativeControlCheck (F : Type 0) : Type 0 where
  pub name : String
  pub available : Bool
  pub effect : F
  pub passed : Bool
  pub reason : ControlReason

pub record NegativeControlResult (F : Type 0) : Type 0 where
  pub passed : Bool
  pub materiality_limit : F
  pub checks : List (NegativeControlCheck F)

-- the four counters of rotatedEffect
pub record Rotation : Type 0 where
  pub hidden_success : ℕ
  pub hidden_n : ℕ
  pub control_success : ℕ
  pub control_n : ℕ

abbrev pub no_rotation : Rotation
no_rotation = record { hidden_success = 0; hidden_n = 0; control_success = 0; control_n = 0 }

module _ {F : Type 0} where
  -- one observation and the next one of its stratum, cyclically
  pub rotate_one : Bool → Observation F → Observation F → Rotation → Rotation
  rotate_one rotate_outcome item rotated r =
      let hidden =
        if rotate_outcome then item.strong_hidden_eligible else rotated.strong_hidden_eligible in
      let outcome = if rotate_outcome then rotated.outcome_observed else item.outcome_observed in
      if hidden
      then record r { hidden_n = r.hidden_n + 1; hidden_success = bump outcome r.hidden_success }
      else if item.control_eligible || (not rotate_outcome && rotated.control_eligible)
      then record r {
        control_n = r.control_n + 1;
        control_success = bump outcome r.control_success;
      }
      else r

  -- items[(index+1) % len(items)]: the next, and after the last the first
  pub rotate_items : Bool → Observation F → List (Observation F) → Rotation → Rotation
  rotate_items rotate_outcome first [] r = r
  rotate_items rotate_outcome first (x ∷ []) r = rotate_one rotate_outcome x first r
  rotate_items rotate_outcome first (x ∷ y ∷ rest) r =
      rotate_items rotate_outcome first (y ∷ rest) (rotate_one rotate_outcome x y r)

  -- strata of fewer than two observations are skipped
  pub rotate_stratum : Bool → List (Observation F) → Rotation → Rotation
  rotate_stratum rotate_outcome [] r = r
  rotate_stratum rotate_outcome (x ∷ []) r = r
  rotate_stratum rotate_outcome (x ∷ y ∷ rest) r = rotate_items rotate_outcome x (x ∷ y ∷ rest) r

  pub rotate_strata : Bool → List (MatchedStratum F) → Rotation → Rotation
  rotate_strata rotate_outcome [] r = r
  rotate_strata rotate_outcome (s ∷ ss) r =
      rotate_strata rotate_outcome ss (rotate_stratum rotate_outcome s.observations r)

  rotatable : List (MatchedStratum F) → Bool
  rotatable [] = false
  rotatable (s ∷ ss) = leb 2 (length s.observations) || rotatable ss

  pub all_passed : List (NegativeControlCheck F) → Bool
  all_passed [] = true
  all_passed (c ∷ cs) = (c.available && c.passed) && all_passed cs

module _ (fl : Floats) where
  open fl use {F, lt, le, sub, div, mul, add, abs, of_int, ratio}

  -- the effect and whether it is available
  pub rotated_effect : List (MatchedStratum F) → Bool → F × Bool
  rotated_effect strata rotate_outcome =
      let r = rotate_strata rotate_outcome strata no_rotation in
      if not (rotatable strata) || r.hidden_n == 0 || r.control_n == 0 then (of_int 0, false) else (
        sub (div (of_int r.hidden_success) (of_int r.hidden_n))
            (div (of_int r.control_success) (of_int r.control_n)),
        true,
      )

  pub check : String → Bool → F → F → ControlReason → NegativeControlCheck F
  check name available effect limit unavailable_reason =
      let passed = lt (abs effect) limit in
      if not available
      then record {
        name = name;
        available = false;
        effect = effect;
        passed = false;
        reason = unavailable_reason;
      }
      else record {
        name = name;
        available = true;
        effect = effect;
        passed = passed;
        reason = if passed then no_reason else material_signal;
      }

  pub unavailable : String → ControlReason → NegativeControlCheck F
  unavailable name reason = record {
    name = name;
    available = false;
    effect = of_int 0;
    passed = false;
    reason = reason;
  }

  pub run_negative_controls : List (MatchedStratum F) → F → NegativeControlResult F
  run_negative_controls strata limit =
      let used = if le limit (of_int 0) then ratio 5 100 else limit in
      let labels = rotated_effect strata false in
      let outcomes = rotated_effect strata true in
      let checks =
        check "random opportunity labels permuted within matched strata" labels.1 labels.0 used
          needs_rotatable_stratum
        ∷ check "outcomes shifted outside the declared decision window" outcomes.1 outcomes.0 used
            needs_rotatable_stratum
        ∷ unavailable "future and time-shuffled target positions" needs_trajectories
        ∷ unavailable "randomly reassigned target identities" needs_several_targets
        ∷ unavailable "pseudo-target sectors" needs_headings
        ∷ unavailable "deliberately delayed visibility probes" needs_delayed_fixture
        ∷ [] in
      record { passed = all_passed checks; materiality_limit = used; checks = checks }
