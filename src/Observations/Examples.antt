-- ===== src/Observations/Examples.antt =====
-- One observation, for examples.
use dayz_behaviour.Prelude.{ℕ, true, false, []}
use dayz_behaviour.Prelude.Int.{pos}
use dayz_behaviour.Observations.{Observation}

abbrev pub hidden_observation : Observation ℕ
hidden_observation = record {
  observation_id = "";
  opportunity_id = "";
  decision_window_id = "";
  refractory_window_id = "";
  encounter_id = "e1";
  observer_target_episode_id = "";
  server_session_id = "";
  server_id = "";
  map_id = "";
  area_cell = "";
  observer_player_session_id = "p1";
  target_player_session_id = "";
  target_identity_key = "t1";
  started_ms = pos 0;
  closed_ms = pos 0;
  sampling_stream = "";
  sampling_policy_version = "";
  visibility_class = "";
  visibility_authority = "";
  observer_origin_mode = "";
  outcome_type = "";
  outcome_observed = true;
  outcome_observed_ms = pos 0;
  outcome_lower_ms = pos 0;
  outcome_upper_ms = pos 0;
  outcome_uncertainty_ms = pos 0;
  outcome_timing_source = "";
  outcome_authority = "";
  cue_class = "UNEXPLAINED_IN_CAPTURED_DATA";
  independent = true;
  strong_hidden_eligible = true;
  control_eligible = false;
  positive_control_eligible = false;
  control_kind = "";
  timing_eligible = false;
  timing_policy_version = "";
  occlusion_duration_ms = pos 0;
  visibility_validation_id = "";
  first_exposure_ms = pos 0;
  first_exposure_lower_ms = pos 0;
  first_exposure_upper_ms = pos 0;
  exposure_cause = "";
  exposure_window_censored = false;
  target_inclusion_probability = 1;
  queue_admission_probability = 1;
  queue_delay_ms = pos 0;
  distance_band = "";
  observer_movement_band = "";
  observer_stance_id = pos 0;
  baseline_weapon_state = "";
  camera_mode = "";
  server_population_band = "";
  source_event_ids = [];
  cue_facts = [];
}

abbrev pub control_observation : Observation ℕ
control_observation = record hidden_observation {
  strong_hidden_eligible = false;
  control_eligible = true;
  outcome_observed = false;
  encounter_id = "e2";
}
