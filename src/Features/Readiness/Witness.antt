-- ===== src/Features/Readiness/Witness.antt =====
-- The theorem on the counts, at two observations.
use dayz_behaviour.Prelude.{◌≡◌, refl, [], ◌∷◌}
use dayz_behaviour.Floats.Examples.{whole_floats}
use dayz_behaviour.Observations.Examples.{hidden_observation, control_observation}
use dayz_behaviour.Features.Readiness.{
  key_set, estimate_readiness_for_sessions, finish, tally, tally_one, note_evidence, is_candidate,
  has_key, add_key, target_key,
}
use dayz_behaviour.Features.Readiness.Counts.{IsCounted, estimate_readiness-IsCounted}

two_encounters :
    (estimate_readiness_for_sessions whole_floats "p1"
      ("p1" ∷ [])
      (hidden_observation ∷ control_observation ∷ [])
      1
      1).independent_encounter_count
    ≡ 2
unfolding key_set estimate_readiness_for_sessions finish tally tally_one note_evidence is_candidate
    has_key add_key target_key
two_encounters = refl

estimate_readiness-IsCounted_example :
    IsCounted ("p1" ∷ []) (hidden_observation ∷ control_observation ∷ []) (
      estimate_readiness_for_sessions whole_floats "p1"
        ("p1" ∷ [])
        (hidden_observation ∷ control_observation ∷ [])
        1
        1)
estimate_readiness-IsCounted_example =
    estimate_readiness-IsCounted whole_floats "p1" ("p1" ∷ [])
      (hidden_observation ∷ control_observation ∷ []) 1 1
