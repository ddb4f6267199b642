-- ===== src/Observations/Events.antt =====
-- internal/observations/builder.go: the configuration, the payload that the builder reads, and flatten.
pub mod Examples
use Prim.Native.String.{compare}
use Prim.Native.Nat.{Ordering}
use dayz_behaviour.Prelude.{
  ℕ, ◌+◌, Bool, true, false, ◌&&◌, ◌||◌, not, Option, none, some, List, [], ◌∷◌, String, ltb, ◌==◌,
  if◌then◌else◌,
}
use dayz_behaviour.Prelude.Int.{ℤ, pos, ltb_ℤ}
use dayz_behaviour.Prelude.Text.{str_eq, ◌<>◌, len}
use dayz_behaviour.Schema.{Batch, Event}

pub record Config : Type 0 where
  pub decision_window_ms : ℤ
  pub refractory_ms : ℤ
  pub episode_gap_ms : ℤ
  pub encounter_gap_ms : ℤ
  pub max_queue_delay_ms : ℤ
  pub max_event_uncertainty_ms : ℤ
  pub timing_policy_version : String

abbrev pub default_config : Config
default_config = record {
  decision_window_ms = pos 5000;
  refractory_ms = pos 5000;
  episode_gap_ms = pos 30000;
  encounter_gap_ms = pos 120000;
  max_queue_delay_ms = pos 250;
  max_event_uncertainty_ms = pos 500;
  timing_policy_version = "interval-timing-v1";
}

pub record WirePayload (F : Type 0) : Type 0 where
  pub target_player_id : String
  pub target_player_session_id : String
  pub classification : String
  pub observer_origin_mode : String
  pub sampling_stream : String
  pub sampling_policy_version : String
  pub sampling_reason : String
  pub target_inclusion_probability : F
  pub queue_admission_probability : F
  pub queue_delay_ms : ℤ
  pub probe_started_ms : ℤ
  pub probe_completed_ms : ℤ
  pub source_player_id : String
  pub map_id : String
  pub area_cell : String
  pub target_distance_metres : F
  pub observer_speed_mps : F
  pub observer_stance_id : ℤ
  pub baseline_weapon_state : String
  pub camera_mode : String
  pub server_population_count : ℤ
  pub occlusion_duration_ms : ℤ
  pub visibility_validation_id : String
  pub control_type : String
  pub event_time_lower_ms : ℤ
  pub event_time_upper_ms : ℤ
  pub event_time_estimate_ms : ℤ
  pub event_time_uncertainty_ms : ℤ
  pub event_timing_source : String

-- `wire` is the field `data` of the code
pub record FlatEvent (F : Type 0) : Type 0 where
  pub batch : Batch
  pub event : Event
  pub id : String
  pub wire : WirePayload F

-- What the builder takes from Go's library: json.Unmarshal into a wirePayload, the payload with every
-- field zero, the decimal digits of fmt, and the hexadecimal half of a SHA-256.
pub record BuildLib (F : Type 0) : Type 0 where
  pub decode : String → Option (WirePayload F)
  pub zero_payload : WirePayload F
  pub print_int : ℤ → String
  pub print_nat : ℕ → String
  pub hash16 : String → String

-- strings.Join(parts, "\x00")
join_zero : List String → String
join_zero [] = ""
join_zero (x ∷ []) = x
join_zero (x ∷ y ∷ rest) = x <> ("\0" <> join_zero (y ∷ rest))

abbrev text_lt : String → String → Bool
text_lt a b = elim (compare a b) [ Ordering.lt ↦ true | _ ↦ false ]

pub same_server_session : {F : Type 0} → FlatEvent F → FlatEvent F → Bool
same_server_session a b =
    str_eq a.batch.server_id b.batch.server_id
    && str_eq a.batch.server_session_id b.batch.server_session_id

pub is_random_opportunity_event : {F : Type 0} → FlatEvent F → Bool
is_random_opportunity_event e =
    str_eq e.wire.sampling_stream "random_opportunity"
    && (str_eq e.event.event_type "VISIBILITY_OBSERVATION"
        || str_eq e.event.event_type "SAMPLING_OPPORTUNITY")

module _ {F : Type 0} where
  -- the order of the sort
  pub precedes : FlatEvent F → FlatEvent F → Bool
  precedes a b =
      if not (str_eq a.batch.server_id b.batch.server_id)
      then text_lt a.batch.server_id b.batch.server_id
      else if not (str_eq a.batch.server_session_id b.batch.server_session_id)
      then text_lt a.batch.server_session_id b.batch.server_session_id
      else if not (ltb_ℤ a.event.server_time_ms b.event.server_time_ms)
          && not (ltb_ℤ b.event.server_time_ms a.event.server_time_ms)
      then ltb a.event.server_sequence b.event.server_sequence
      else ltb_ℤ a.event.server_time_ms b.event.server_time_ms

  pub insert_event : FlatEvent F → List (FlatEvent F) → List (FlatEvent F)
  insert_event x [] = x ∷ []
  insert_event x (y ∷ ys) =
      let rest = insert_event x ys in if precedes y x then y ∷ rest else x ∷ y ∷ ys

  -- sort.SliceStable
  pub sort_events : List (FlatEvent F) → List (FlatEvent F)
  sort_events [] = []
  sort_events (x ∷ xs) = insert_event x (sort_events xs)

module _ {F : Type 0} (lib : BuildLib F) where
  pub stable_id : List String → String
  unfolding join_zero
  stable_id parts = lib.hash16 (join_zero parts)

  -- the payload of an event; none where it does not decode
  pub payload_of : Event → Option (WirePayload F)
  payload_of e = if ltb 0 (len e.payload) then lib.decode e.payload else some lib.zero_payload

  pub event_id : Batch → Event → String
  event_id b e =
      if str_eq e.source_event_id ""
      then b.server_session_id <> (":" <> lib.print_nat e.server_sequence)
      else e.source_event_id

  -- one batch, in front of the events of the batches after it
  flatten_batch : Batch → List Event → Option (List (FlatEvent F)) → Option (List (FlatEvent F))
  flatten_batch b [] rest = rest
  flatten_batch b (e ∷ es) rest =
      let more = flatten_batch b es rest in
      elim (payload_of e) [
        | none ↦ none
        | some p ↦ elim more [
          | none ↦ none
          | some events ↦
              some (record { batch = b; event = e; id = event_id b e; wire = p } ∷ events)
        ]
      ]

  pub flatten_batches : List Batch → Option (List (FlatEvent F))
  unfolding flatten_batch
  flatten_batches [] = some []
  flatten_batches (b ∷ bs) = flatten_batch b b.events (flatten_batches bs)

  -- none is the error of a payload that does not decode
  pub flatten : List Batch → Option (List (FlatEvent F))
  unfolding flatten_batches
  flatten bs = elim (flatten_batches bs) [ none ↦ none | some events ↦ some (sort_events events) ]
