-- ===== src/Observations/Events/Examples.antt =====
-- One batch with one visibility observation, for examples.
use dayz_behaviour.Prelude.{ℕ, ◌≡◌, refl, some, [], ◌∷◌}
use dayz_behaviour.Prelude.Int.{pos}
use dayz_behaviour.Schema.{Event, Batch}
use dayz_behaviour.Schema.Examples.{sample_event, sample_batch}
use dayz_behaviour.Observations.Events.{
  WirePayload, FlatEvent, BuildLib, flatten, flatten_batches, flatten_batch, sort_events,
  insert_event, payload_of, event_id,
}

abbrev pub hidden_payload : WirePayload ℕ
hidden_payload = record {
  target_player_id = "t1";
  target_player_session_id = "";
  classification = "ROBUSTLY_OCCLUDED";
  observer_origin_mode = "VALIDATED_FIRST_PERSON_HEAD";
  sampling_stream = "random_opportunity";
  sampling_policy_version = "v1";
  sampling_reason = "";
  target_inclusion_probability = 1;
  queue_admission_probability = 1;
  queue_delay_ms = pos 10;
  probe_started_ms = pos 100;
  probe_completed_ms = pos 110;
  source_player_id = "";
  map_id = "";
  area_cell = "";
  target_distance_metres = 30;
  observer_speed_mps = 1;
  observer_stance_id = pos 0;
  baseline_weapon_state = "";
  camera_mode = "";
  server_population_count = pos 20;
  occlusion_duration_ms = pos 700;
  visibility_validation_id = "check-1";
  control_type = "";
  event_time_lower_ms = pos 0;
  event_time_upper_ms = pos 0;
  event_time_estimate_ms = pos 0;
  event_time_uncertainty_ms = pos 0;
  event_timing_source = "";
}

abbrev pub hidden_event : Event
hidden_event = record sample_event {
  event_type = "VISIBILITY_OBSERVATION";
  source_event_id = "e1";
  payload = "{}";
}

abbrev pub hidden_batch : Batch
hidden_batch = record sample_batch { events = hidden_event ∷ [] }

abbrev pub sample_build_lib : BuildLib ℕ
sample_build_lib = record {
  decode = λ raw. some hidden_payload;
  zero_payload = hidden_payload;
  print_int = λ n. "0";
  print_nat = λ n. "0";
  hash16 = λ text. text;
}

abbrev pub hidden_flat : FlatEvent ℕ
hidden_flat = record {
  batch = hidden_batch;
  event = hidden_event;
  id = "e1";
  wire = hidden_payload;
}

pub hidden_batch-flatten : flatten sample_build_lib (hidden_batch ∷ []) ≡ some (hidden_flat ∷ [])
unfolding flatten flatten_batches flatten_batch sort_events insert_event payload_of event_id
hidden_batch-flatten = refl
