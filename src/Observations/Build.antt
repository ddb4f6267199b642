-- ===== src/Observations/Build.antt =====
-- internal/observations/builder.go: Build, from the batches to the observations.
pub mod Eligible
mod Witness
use dayz_behaviour.Prelude.{
  ℕ, Bool, true, false, ◌&&◌, ◌||◌, not, Option, none, some, List, [], ◌∷◌, ◌++◌, String,
  if◌then◌else◌, ◌⊎◌, inl, inr,
}
use dayz_behaviour.Prelude.Int.{ℤ, pos, ltb_ℤ}
use dayz_behaviour.Prelude.Words.{add64, quot64}
use dayz_behaviour.Prelude.Text.{str_eq, ◌<>◌}
use dayz_behaviour.Floats.{Floats}
use dayz_behaviour.Schema.{Batch, validated_first_person_origin}
use dayz_behaviour.Observations.{Observation, CueFact}
use dayz_behaviour.Observations.Events.{
  Config, BuildLib, FlatEvent, stable_id, flatten, is_random_opportunity_event,
}
use dayz_behaviour.Observations.Outcome.{
  OutcomeResult, ExposureResult, not_positive, is_exposed, readiness_outcome, first_exposure,
}
use dayz_behaviour.Observations.Labels.{
  control_kind, population_band, distance_band, movement_band, target_identity_key,
}
use dayz_behaviour.Observations.Cues.{Cue, cue_class}
use dayz_behaviour.Observations.Independence.{assign_independence}

pub data BuildError : Type 0 where
  durations_not_positive decode_failed : BuildError

-- the validity of the configuration, and its default for the uncertainty
pub is_valid_config : Config → Bool
is_valid_config c =
    not (
      not_positive c.decision_window_ms
      || (not_positive c.refractory_ms || not_positive c.episode_gap_ms))
    && not (
        not_positive c.encounter_gap_ms
        || (not_positive c.max_queue_delay_ms || str_eq c.timing_policy_version ""))

pub with_defaults : Config → Config
with_defaults c =
    if not_positive c.max_event_uncertainty_ms
    then record c { max_event_uncertainty_ms = pos 500 }
    else c

module _ (fl : Floats) (lib : BuildLib fl.F) (config : Config) where
  open fl use {F, lt, of_int, ratio}

  pub started_of : FlatEvent F → ℤ
  started_of e =
      if not_positive e.wire.probe_started_ms
      then e.event.server_time_ms
      else e.wire.probe_started_ms

  pub target_session : FlatEvent F → String
  target_session e =
      if str_eq e.wire.target_player_session_id "" && not (str_eq e.wire.target_player_id "")
      then e.batch.server_session_id <> (":" <> e.wire.target_player_id)
      else e.wire.target_player_session_id

  pub add_fact : Option CueFact → Observation F → Observation F
  add_fact none x = x
  add_fact (some fact) x = record x {
    cue_facts = fact ∷ [];
    source_event_ids = x.source_event_ids ++ fact.source_event_id ∷ [];
  }

  -- the composite literal: what the event itself says
  pub opening : FlatEvent F → Cue → Observation F
  opening e cue = record {
    observation_id = "";
    opportunity_id = e.id;
    decision_window_id = "";
    refractory_window_id = "";
    encounter_id = "";
    observer_target_episode_id = "";
    server_session_id = e.batch.server_session_id;
    server_id = e.batch.server_id;
    map_id = e.wire.map_id;
    area_cell = e.wire.area_cell;
    observer_player_session_id = e.event.player_session_id;
    target_player_session_id = target_session e;
    target_identity_key = target_identity_key lib e.wire.target_player_id (target_session e);
    started_ms = started_of e;
    closed_ms = add64 (started_of e) config.decision_window_ms;
    sampling_stream = e.wire.sampling_stream;
    sampling_policy_version = e.wire.sampling_policy_version;
    visibility_class = e.wire.classification;
    visibility_authority = e.event.source_authority;
    observer_origin_mode = e.wire.observer_origin_mode;
    outcome_type = "READINESS";
    outcome_observed = false;
    outcome_observed_ms = pos 0;
    outcome_lower_ms = pos 0;
    outcome_upper_ms = pos 0;
    outcome_uncertainty_ms = pos 0;
    outcome_timing_source = "";
    outcome_authority = "";
    cue_class = cue.0;
    independent = true;
    strong_hidden_eligible = false;
    control_eligible = false;
    positive_control_eligible = false;
    control_kind = control_kind e.wire.classification e.wire.control_type;
    timing_eligible = false;
    timing_policy_version = "";
    occlusion_duration_ms = e.wire.occlusion_duration_ms;
    visibility_validation_id = e.wire.visibility_validation_id;
    first_exposure_ms = pos 0;
    first_exposure_lower_ms = pos 0;
    first_exposure_upper_ms = pos 0;
    exposure_cause = "";
    exposure_window_censored = false;
    target_inclusion_probability = e.wire.target_inclusion_probability;
    queue_admission_probability = e.wire.queue_admission_probability;
    queue_delay_ms = e.wire.queue_delay_ms;
    distance_band = distance_band fl e.wire.target_distance_metres;
    observer_movement_band = movement_band fl e.wire.observer_speed_mps;
    observer_stance_id = e.wire.observer_stance_id;
    baseline_weapon_state = e.wire.baseline_weapon_state;
    camera_mode = e.wire.camera_mode;
    server_population_band = population_band e.wire.server_population_count;
    source_event_ids = e.id ∷ [];
    cue_facts = [];
  }

  pub with_outcome : OutcomeResult → Observation F → Observation F
  with_outcome o x = record x {
    outcome_observed = o.observed;
    outcome_observed_ms = o.estimate_ms;
    outcome_lower_ms = o.lower_ms;
    outcome_upper_ms = o.upper_ms;
    outcome_uncertainty_ms = o.uncertainty;
    outcome_timing_source = o.timing;
    outcome_authority = o.authority;
    source_event_ids = o.source_ids;
  }

  pub with_exposure : ExposureResult → Observation F → Observation F
  with_exposure r x = record x {
    first_exposure_ms = r.estimate_ms;
    first_exposure_lower_ms = r.lower_ms;
    first_exposure_upper_ms = r.upper_ms;
    exposure_cause = r.cause;
    exposure_window_censored = r.censored;
    source_event_ids = r.source_ids;
  }

  -- the if on the target: its first exposure after the origin
  pub expose : FlatEvent F → List (FlatEvent F) → Observation F → Observation F
  unfolding with_exposure
  expose e after x =
      if not (str_eq e.wire.target_player_id "")
      then with_exposure (first_exposure after e x e.wire.target_player_id x.source_event_ids) x
      else record x { exposure_cause = "NOT_APPLICABLE"; exposure_window_censored = true }

  pub is_timing_eligible : Observation F → Bool
  is_timing_eligible x =
      not (ltb_ℤ x.queue_delay_ms (pos 0))
      && (not (ltb_ℤ config.max_queue_delay_ms x.queue_delay_ms)
          && not (
              x.outcome_observed && ltb_ℤ config.max_event_uncertainty_ms x.outcome_uncertainty_ms))

  abbrev positive : F → Bool
  positive p = lt (of_int 0) p

  pub is_strong_hidden : Observation F → Bool
  is_strong_hidden x =
      (str_eq x.visibility_class "ROBUSTLY_OCCLUDED"
        && (str_eq x.visibility_authority "A"
            && validated_first_person_origin x.observer_origin_mode))
      && ((not (str_eq x.visibility_validation_id "") && ltb_ℤ (pos 0) x.occlusion_duration_ms)
          && (is_timing_eligible x
              && (positive x.target_inclusion_probability
                  && positive x.queue_admission_probability)))

  pub is_control : Observation F → Bool
  is_control x =
      (str_eq x.visibility_class "NO_RELEVANT_TARGET" && str_eq x.visibility_authority "A")
      && (is_timing_eligible x && positive x.queue_admission_probability)

  pub is_positive_control : Observation F → Bool
  is_positive_control x =
      (is_exposed x.visibility_class && str_eq x.visibility_authority "A")
      && (is_timing_eligible x
          && (positive x.target_inclusion_probability && positive x.queue_admission_probability))

  timing_version : String
  timing_version =
      config.timing_policy_version
      <> (":max-queue-"
          <> (lib.print_int config.max_queue_delay_ms
              <> ("ms:max-event-uncertainty-"
                  <> (lib.print_int config.max_event_uncertainty_ms <> "ms"))))

  -- the eligibilities and the names
  pub qualify : FlatEvent F → Observation F → Observation F
  unfolding is_strong_hidden is_control is_positive_control is_timing_eligible timing_version
  qualify e x = record x {
    timing_eligible = is_timing_eligible x;
    timing_policy_version = timing_version;
    strong_hidden_eligible = is_strong_hidden x;
    control_eligible = is_control x;
    positive_control_eligible = is_positive_control x;
    decision_window_id = stable_id lib ("window" ∷ e.id ∷ []);
    refractory_window_id = stable_id lib (
        "refractory"
        ∷ x.observer_player_session_id
        ∷ lib.print_int (quot64 (started_of e) config.refractory_ms)
        ∷ []);
    observation_id = stable_id lib ("observation" ∷ e.id ∷ "observation-builder-v4-temporal" ∷ []);
  }

  -- one round of the loop, between the events before, the latest first, and those after
  pub observe : List (FlatEvent F) → FlatEvent F → List (FlatEvent F) → Observation F
  unfolding add_fact opening with_outcome expose qualify
  observe before e after =
      let cue =
        cue_class before e e.event.player_session_id e.wire.target_player_id (started_of e) in
      let opened = add_fact cue.1 (opening e cue) in
      qualify e (
        expose e after
          (with_outcome (readiness_outcome after e opened opened.source_event_ids) opened))

  pub observe_all : List (FlatEvent F) → List (FlatEvent F) → List (Observation F)
  unfolding observe
  observe_all before [] = []
  observe_all before (e ∷ after) =
      let rest = observe_all (e ∷ before) after in
      if is_random_opportunity_event e then observe before e after ∷ rest else rest

pub build :
    (fl : Floats) → BuildLib fl.F → Config → List Batch → List (Observation fl.F) ⊎ BuildError
unfolding is_valid_config with_defaults observe_all
build fl lib config batches =
    let c = with_defaults config in
    if not (is_valid_config config)
    then inr durations_not_positive
    else elim (flatten lib batches) [
      | none ↦ inr decode_failed
      | some events ↦ inl (assign_independence lib c (observe_all fl lib c [] events))
    ]
