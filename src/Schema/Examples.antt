-- ===== src/Schema/Examples.antt =====
-- A small valid batch, for the examples of every part.
use dayz_behaviour.Prelude.{ℕ, ltb, leb, ◌≡◌, refl, none, some, [], ◌∷◌}
use dayz_behaviour.Prelude.Int.{pos}
use dayz_behaviour.Prelude.Text.{trim}
use dayz_behaviour.Json.{
  null, number, text, object, Fields, end, field, JsonLib, get_field, as_text, as_number,
}
use dayz_behaviour.Schema.{
  Event, Batch, validate, validate_events, validate_event, validate_identifier, identifier_error,
  validate_authority, validate_visibility, is_json, is_missing, validate_visibility_payload,
  as_fields, validate_visibility_fields, require_strings, require_string, non_negatives,
  non_negative, positive, robust_unvalidated, validated_first_person_origin, no_duration,
}

abbrev pub sample_lib : JsonLib
sample_lib = record {
  Number = ℕ;
  lt = ltb;
  le = leb;
  zero_number = 0;
  one_number = 1;
  parse = λ raw. some null;
}

abbrev pub sample_event : Event
sample_event = record {
  event_type = "PLAYER_CONNECTED";
  source = "server";
  source_authority = "A";
  source_component = "";
  source_event_id = "";
  source_schema_version = pos 1;
  collector_version = "1";
  server_sequence = 1;
  server_time_ms = pos 5;
  server_receive_ms = pos 5;
  player_session_id = "p1";
  player_id = "";
  client_sequence = none;
  client_monotonic_time_ms = none;
  payload = "";
}

abbrev pub sample_batch : Batch
sample_batch = record {
  schema_version = pos 1;
  server_id = "srv";
  server_session_id = "s1";
  batch_sequence = 7;
  server_time_ms = pos 5;
  collector_version = "1";
  dayz_build = "";
  configuration_hash = "";
  events = sample_event ∷ [];
}

abbrev sample_numbers : Fields ℕ
sample_numbers = field "observer_inclusion_probability" (number 1) (
    field "target_inclusion_probability" (number 1) (
      field "queue_admission_probability" (number 1) (
        field "observer_eligible_count" (number 2) (
          field "target_eligible_count" (number 2) (
            field "probe_started_ms" (number 5) (
              field "probe_completed_ms" (number 6) (
                field "occlusion_duration_ms" (number 9)
                  (field "visibility_validation_id" (text "v1") end))))))))

-- a visibility observation: the parser knows its one payload
abbrev sample_fields : Fields ℕ
sample_fields = field "observer_player_id" (text "p1") (
    field "target_player_id" (text "p2") (
      field "classification" (text "ROBUSTLY_OCCLUDED") (
        field "observer_origin_mode" (text "FIRST_PERSON_EYE") (
          field "sampling_stream" (text "random_opportunity") (
            field "sampling_policy_version" (text "1") (
              field "sampling_reason" (text "r") (
                field "risk_set_definition" (text "d") (
                  field "scheduler_load_state" (text "normal")
                    (field "visibility_policy_version" (text "1") sample_numbers)))))))))

abbrev pub visibility_lib : JsonLib
visibility_lib = record sample_lib { parse = λ raw. some (object sample_fields) }

abbrev pub visibility_batch : Batch
visibility_batch = record sample_batch {
  events = record sample_event { event_type = "VISIBILITY_OBSERVATION"; payload = "{}" } ∷ [];
}

pub visibility_batch-valid : validate visibility_lib visibility_batch ≡ none
unfolding validate validate_events validate_event validate_identifier identifier_error
    validate_authority validate_visibility is_json is_missing trim validate_visibility_payload
    as_fields validate_visibility_fields require_strings require_string non_negatives non_negative
    positive robust_unvalidated validated_first_person_origin no_duration get_field as_text
    as_number
visibility_batch-valid = refl

pub sample_batch-valid : validate sample_lib sample_batch ≡ none
unfolding validate validate_events validate_event validate_identifier identifier_error
    validate_authority validate_visibility is_json is_missing trim
sample_batch-valid = refl
