-- ===== src/Schema.antt =====
-- pkg/schema/v1.go: the batch envelope and its validation.
pub mod Evidence
pub mod Trust
pub mod Accepts
pub mod Examples
mod Witness
use dayz_behaviour.Prelude.{
  ℕ, zero, ◌+◌, Bool, true, false, ◌&&◌, ◌||◌, not, Option, none, some, List, [], ◌∷◌, String, ltb,
  leb, ◌==◌, if◌then◌else◌, length,
}
use dayz_behaviour.Prelude.Int.{ℤ, pos, negsuc, ltb_ℤ}
use dayz_behaviour.Prelude.Text.{str_eq, is_blank, trim, len}
use dayz_behaviour.Json.{Json, Fields, object, null, end, JsonLib, get_field, as_text, as_number}

abbrev pub max_events_per_batch : ℕ
max_events_per_batch = 1000

abbrev pub max_event_type_length : ℕ
max_event_type_length = 64

abbrev pub max_identifier_length : ℕ
max_identifier_length = 128

abbrev pub max_payload_bytes : ℕ
max_payload_bytes = 32768

pub record Event : Type 0 where
  pub event_type : String
  pub source : String
  pub source_authority : String
  pub source_component : String
  pub source_event_id : String
  pub source_schema_version : ℤ
  pub collector_version : String
  pub server_sequence : ℕ
  pub server_time_ms : ℤ
  pub server_receive_ms : ℤ
  pub player_session_id : String
  pub player_id : String
  pub client_sequence : Option ℕ
  pub client_monotonic_time_ms : Option ℤ
  pub payload : String

pub record Batch : Type 0 where
  pub schema_version : ℤ
  pub server_id : String
  pub server_session_id : String
  pub batch_sequence : ℕ
  pub server_time_ms : ℤ
  pub collector_version : String
  pub dayz_build : String
  pub configuration_hash : String
  pub events : List Event

abbrev pub source_server : String
source_server = "server"

abbrev pub source_client : String
source_client = "client_untrusted"

-- one constructor for each message of the code
pub data Reason : Type 0 where
  identifier_required identifier_too_long : String → Reason
  zero_batch_sequence negative_batch_time event_count : Reason
  event_type_length unknown_source unknown_authority client_claims_server : Reason
  zero_server_sequence negative_event_time missing_client_sequence : Reason
  payload_too_large payload_not_json visibility_not_authoritative : Reason
  visibility_not_object unknown_stream bad_probability robust_unproven : Reason
  missing_field negative_field : String → Reason
  in_event : ℕ → Reason → Reason

pub data SchemaError : Type 0 where
  unsupported_version : SchemaError
  invalid_batch : Reason → SchemaError

-- `if bad { return why }; rest`
infixr 6 ◌orelse◌
abbrev pub ◌orelse◌ {ℓ} : {A : Type ℓ} → Option A → Option A → Option A
none orelse rest = rest
some e orelse rest = some e

abbrev pub fails {ℓ} : {A : Type ℓ} → Bool → A → Option A
fails bad why = if bad then some why else none

pub validate_identifier : String → String → Bool → Option Reason
validate_identifier name value required =
    fails (required && is_blank value) (identifier_required name)
    orelse fails (ltb max_identifier_length (len value)) (identifier_too_long name)

pub validated_first_person_origin : String → Bool
validated_first_person_origin origin =
    str_eq origin "VALIDATED_FIRST_PERSON_HEAD" || str_eq origin "FIRST_PERSON_EYE"

abbrev pub required_texts : List String
required_texts =
    "observer_player_id" ∷ "target_player_id" ∷ "classification" ∷ "observer_origin_mode"
    ∷ "sampling_stream" ∷ "sampling_policy_version" ∷ "sampling_reason" ∷ "risk_set_definition"
    ∷ "scheduler_load_state" ∷ "visibility_policy_version" ∷ []

abbrev pub required_counts : List String
required_counts =
    "observer_eligible_count" ∷ "target_eligible_count" ∷ "probe_started_ms" ∷ "probe_completed_ms"
    ∷ []

-- `text, _ := v.(string)`: the zero value where the assertion fails
abbrev pub text_or_empty : Option String → String
text_or_empty none = ""
text_or_empty (some s) = s

abbrev is_version_1 : ℤ → Bool
is_version_1 (pos n) = n == 1
is_version_1 (negsuc n) = false

is_missing {ℓ} : {A : Type ℓ} → Option A → Bool
is_missing none = true
is_missing (some a) = false

identifier_error : Option Reason → Option SchemaError
identifier_error none = none
identifier_error (some why) = some (invalid_batch why)

module _ (lib : JsonLib) where
  open lib use {Number, lt, le, zero_number, one_number, parse}

  abbrev pub field_text : Fields Number → String → String
  field_text fields key = text_or_empty (as_text (get_field key fields))

  require_string : Fields Number → String → Option Reason
  require_string fields key = elim (as_text (get_field key fields)) [
    | some value ↦ fails (is_blank value) (missing_field key)
    | none ↦ some (missing_field key)
  ]

  require_strings : Fields Number → List String → Option Reason
  require_strings fields [] = none
  require_strings fields (key ∷ keys) = require_string fields key orelse require_strings fields keys

  positive : Fields Number → String → Bool
  positive fields key = elim (as_number (get_field key fields)) [
    | some value ↦ lt zero_number value && le value one_number
    | none ↦ false
  ]

  non_negative : Fields Number → String → Option Reason
  non_negative fields key = elim (as_number (get_field key fields)) [
    | some value ↦ fails (lt value zero_number) (negative_field key)
    | none ↦ some (negative_field key)
  ]

  non_negatives : Fields Number → List String → Option Reason
  non_negatives fields [] = none
  non_negatives fields (key ∷ keys) = non_negative fields key orelse non_negatives fields keys

  -- duration <= 0, where a missing duration is 0
  no_duration : Fields Number → Bool
  no_duration fields = elim (as_number (get_field "occlusion_duration_ms" fields)) [
    | some duration ↦ le duration zero_number
    | none ↦ le zero_number zero_number
  ]

  robust_unvalidated : Fields Number → Bool
  robust_unvalidated fields =
      not (validated_first_person_origin (field_text fields "observer_origin_mode"))
      || is_blank (field_text fields "visibility_validation_id")
      || no_duration fields

  pub validate_visibility_fields : Fields Number → Option Reason
  validate_visibility_fields fields =
      let stream = field_text fields "sampling_stream" in
      require_strings fields required_texts
      orelse fails
          (not (str_eq stream "random_opportunity") && not (str_eq stream "event_enrichment"))
          unknown_stream
      orelse fails
          (not (positive fields "observer_inclusion_probability")
            || not (positive fields "target_inclusion_probability")
            || not (positive fields "queue_admission_probability"))
          bad_probability
      orelse non_negatives fields required_counts
      orelse fails
          (str_eq (field_text fields "classification") "ROBUSTLY_OCCLUDED"
            && robust_unvalidated fields)
          robust_unproven

  -- json.Unmarshal into a map[string]any: an object, or null, which leaves the map empty
  pub as_fields : Option (Json Number) → Option (Fields Number)
  as_fields (some (object fields)) = some fields
  as_fields (some null) = some end
  as_fields _ = none

  pub validate_visibility_payload : String → Option Reason
  validate_visibility_payload raw =
      if len raw == 0 then some visibility_not_object else elim (as_fields (parse raw)) [
        | some fields ↦ validate_visibility_fields fields
        | none ↦ some visibility_not_object
      ]

  is_json : String → Bool
  is_json raw = elim (parse raw) [ some value ↦ true | none ↦ false ]

  validate_authority : Event → Option Reason
  validate_authority e =
      fails
        (not (str_eq e.source_authority "")
          && not (str_eq e.source_authority "A")
          && not (str_eq e.source_authority "B")
          && not (str_eq e.source_authority "C"))
        unknown_authority
      orelse fails
          (not (str_eq e.source_authority "")
            && str_eq e.source source_client
            && not (str_eq e.source_authority "B")
            && not (str_eq e.source_authority "C"))
          client_claims_server

  validate_visibility : Event → Option Reason
  validate_visibility e =
      if str_eq e.event_type "VISIBILITY_OBSERVATION"
      then (fails (not (str_eq e.source source_server) || not (str_eq e.source_authority "A"))
            visibility_not_authoritative
          orelse validate_visibility_payload e.payload)
      else none

  pub validate_event : Event → Option Reason
  validate_event e =
      fails (is_blank e.event_type || ltb max_event_type_length (len e.event_type))
        event_type_length
      orelse fails (not (str_eq e.source source_server) && not (str_eq e.source source_client))
          unknown_source
      orelse validate_authority e
      orelse fails (e.server_sequence == 0) zero_server_sequence
      orelse fails (ltb_ℤ e.server_time_ms (pos 0)) negative_event_time
      orelse validate_identifier "player_session_id" e.player_session_id false
      orelse validate_identifier "player_id" e.player_id false
      orelse fails (str_eq e.source source_client && is_missing e.client_sequence)
          missing_client_sequence
      orelse fails (ltb max_payload_bytes (len e.payload)) payload_too_large
      orelse fails (ltb 0 (len e.payload) && not (is_json e.payload)) payload_not_json
      orelse validate_visibility e

  -- the loop over the events, from the index `i`
  validate_events : ℕ → List Event → Option SchemaError
  validate_events i [] = none
  validate_events i (e ∷ es) =
      let rest = validate_events (i + 1) es in
      elim (validate_event e) [ some why ↦ some (invalid_batch (in_event i why)) | none ↦ rest ]

  pub validate : Batch → Option SchemaError
  validate b =
      fails (not (is_version_1 b.schema_version)) unsupported_version
      orelse identifier_error (validate_identifier "server_id" b.server_id true)
      orelse identifier_error (validate_identifier "server_session_id" b.server_session_id true)
      orelse fails (b.batch_sequence == 0) (invalid_batch zero_batch_sequence)
      orelse fails (ltb_ℤ b.server_time_ms (pos 0)) (invalid_batch negative_batch_time)
      orelse fails (length b.events == 0 || ltb max_events_per_batch (length b.events))
          (invalid_batch event_count)
      orelse validate_events 0 b.events
