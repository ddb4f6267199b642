-- ===== src/Observations.antt =====
-- internal/observations/builder.go: the observation that the analysis reads.
pub mod Events
pub mod Outcome
pub mod Cues
pub mod Independence
pub mod Labels
pub mod Build
pub mod Examples
use dayz_behaviour.Prelude.{ℕ, Bool, List, String}
use dayz_behaviour.Prelude.Int.{ℤ}

pub record CueFact : Type 0 where
  pub cue_type : String
  pub source_event_id : String
  pub occurred_ms : ℤ
  pub details : String
  pub source_authority : String

pub record Observation (F : Type 0) : Type 0 where
  pub observation_id : String
  pub opportunity_id : String
  pub decision_window_id : String
  pub refractory_window_id : String
  pub encounter_id : String
  pub observer_target_episode_id : String
  pub server_session_id : String
  pub server_id : String
  pub map_id : String
  pub area_cell : String
  pub observer_player_session_id : String
  pub target_player_session_id : String
  pub target_identity_key : String
  pub started_ms : ℤ
  pub closed_ms : ℤ
  pub sampling_stream : String
  pub sampling_policy_version : String
  pub visibility_class : String
  pub visibility_authority : String
  pub observer_origin_mode : String
  pub outcome_type : String
  pub outcome_observed : Bool
  pub outcome_observed_ms : ℤ
  pub outcome_lower_ms : ℤ
  pub outcome_upper_ms : ℤ
  pub outcome_uncertainty_ms : ℤ
  pub outcome_timing_source : String
  pub outcome_authority : String
  pub cue_class : String
  pub independent : Bool
  pub strong_hidden_eligible : Bool
  pub control_eligible : Bool
  pub positive_control_eligible : Bool
  pub control_kind : String
  pub timing_eligible : Bool
  pub timing_policy_version : String
  pub occlusion_duration_ms : ℤ
  pub visibility_validation_id : String
  pub first_exposure_ms : ℤ
  pub first_exposure_lower_ms : ℤ
  pub first_exposure_upper_ms : ℤ
  pub exposure_cause : String
  pub exposure_window_censored : Bool
  pub target_inclusion_probability : F
  pub queue_admission_probability : F
  pub queue_delay_ms : ℤ
  pub distance_band : String
  pub observer_movement_band : String
  pub observer_stance_id : ℤ
  pub baseline_weapon_state : String
  pub camera_mode : String
  pub server_population_band : String
  pub source_event_ids : List String
  pub cue_facts : List CueFact
