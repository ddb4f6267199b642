-- ===== src/Observations/Outcome/Witness.antt =====
-- The theorem on the readiness outcome, at one raised weapon.
use dayz_behaviour.Prelude.{ℕ, refl, [], ◌∷◌, arith}
use dayz_behaviour.Prelude.Int.{pos}
use dayz_behaviour.Observations.{Observation}
use dayz_behaviour.Observations.Events.{FlatEvent}
use dayz_behaviour.Observations.Examples.{hidden_observation}
use dayz_behaviour.Observations.Events.Examples.{hidden_flat}
use dayz_behaviour.Observations.Outcome.{readiness_outcome}
use dayz_behaviour.Observations.Outcome.Search.{MeetsWindow, readiness_outcome-MeetsWindow}

abbrev raised : FlatEvent ℕ
raised = record hidden_flat {
  id = "e2";
  event = record hidden_flat.event { event_type = "DECISION_EDGE" };
  wire = record hidden_flat.wire { sampling_reason = "WEAPON_RAISED" };
}

abbrev opened : Observation ℕ
opened = record hidden_observation { closed_ms = pos 5000 }

readiness_outcome-MeetsWindow_example :
    MeetsWindow (readiness_outcome (raised ∷ []) hidden_flat opened []) opened
readiness_outcome-MeetsWindow_example =
    readiness_outcome-MeetsWindow (raised ∷ []) hidden_flat opened []
      (((5, refl, omega arith), omega arith), tt)
