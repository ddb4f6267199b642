-- ===== src/Ledger/Enrich.antt =====
-- internal/cues/audio.go: Enrich, the best gunshot and the best footstep before each observation.
use dayz_behaviour.Prelude.{
  ℕ, ◌==◌, Bool, true, false, ◌&&◌, ◌||◌, not, Option, none, some, List, [], ◌∷◌, ◌++◌, String, ltb,
  if◌then◌else◌, ◌⊎◌, inl, inr,
}
use dayz_behaviour.Prelude.Int.{ℤ, pos, ltb_ℤ}
use dayz_behaviour.Prelude.Words.{sub64}
use dayz_behaviour.Prelude.Text.{str_eq}
use dayz_behaviour.Floats.{Floats}
use dayz_behaviour.Schema.{Batch}
use dayz_behaviour.Audio.{
  Audibility, not_audible, possible, likely, strong, AudioResult, CaseLib, classify_gunshot,
  classify_footstep,
}
use dayz_behaviour.Observations.{Observation, CueFact}
use dayz_behaviour.Privacy.{raw_durable_id}
use dayz_behaviour.Ledger.{
  LedgerConfig, LedgerLib, CueEvent, PositionSample, Vector, Index, session_key, player_key,
  vector3, events_at, samples_at, nearest_position, distance3, direction_degrees, round1,
  index_events,
}

pub record CandidateCue : Type 0 where
  pub fact : CueFact
  pub class : String
  pub rank : ℕ

-- what json.Marshal gets for the details of a cue; the speed is that of a footstep
pub record CueDetails (F : Type 0) : Type 0 where
  pub gunshot : Bool
  pub source : CueEvent F
  pub result : AudioResult F
  pub distance : F
  pub direction : F
  pub speed : F

pub data EnrichError : Type 0 where
  not_positive_config decode_failed : EnrichError

cue_class_of : Audibility → Bool → String × ℕ
cue_class_of strong gunshot = if gunshot then ("KNOWN", 3) else ("PLAUSIBLE", 2)
cue_class_of likely gunshot = ("PLAUSIBLE", 2)
cue_class_of possible gunshot = ("UNEXPLAINED_IN_CAPTURED_DATA", 1)
cue_class_of not_audible gunshot = ("UNEXPLAINED_IN_CAPTURED_DATA", 0)

abbrev is_audible : Audibility → Bool
is_audible not_audible = false
is_audible _ = true

pub better_cue : CandidateCue → Option CandidateCue → Bool
better_cue value none = true
better_cue value (some current) =
    ltb current.rank value.rank
    || (value.rank == current.rank && ltb_ℤ current.fact.occurred_ms value.fact.occurred_ms)

keep_better : Option CandidateCue → Option CandidateCue → Option CandidateCue
unfolding better_cue
keep_better none best = best
keep_better (some cue) best = if better_cue cue best then some cue else best

cue_class_rank : String → ℕ
cue_class_rank value = if str_eq value "KNOWN" then 3 else if str_eq value "PLAUSIBLE" then 2 else 0

has_text : String → List String → Bool
has_text s [] = false
has_text s (x ∷ xs) = str_eq x s || has_text s xs

pub append_unique : List String → String → List String
unfolding has_text
append_unique values value = if has_text value values then values else values ++ value ∷ []

pub add_cue : {F : Type 0} → Option CandidateCue → Observation F → Observation F
unfolding append_unique cue_class_rank
add_cue none x = x
add_cue (some cue) x = record x {
  cue_facts = x.cue_facts ++ cue.fact ∷ [];
  source_event_ids = append_unique x.source_event_ids cue.fact.source_event_id;
  cue_class =
      if ltb (cue_class_rank x.cue_class) (cue_class_rank cue.class)
      then cue.class
      else x.cue_class;
}

module _ (fl : Floats) (lib : LedgerLib fl.F) (cases : CaseLib)
    (encode_details : CueDetails fl.F → String) (config : LedgerConfig) where
  open fl use {F, of_int}

  abbrev zero_vector : Vector F
  zero_vector = record { x = of_int 0; y = of_int 0; z = of_int 0 }

  -- a footstep reports its ranges rounded
  reported : Bool → AudioResult F → AudioResult F
  unfolding round1
  reported gunshot r = if gunshot then r else record r {
    likely_range = round1 fl lib r.likely_range;
    maximum_range = round1 fl lib r.maximum_range;
  }

  cue_of : String → Bool → CueEvent F → AudioResult F → F → F → Option CandidateCue
  unfolding cue_class_of round1 reported
  cue_of cue_type gunshot source result distance direction =
      let class = cue_class_of result.audibility gunshot in
      if not (is_audible result.audibility)
      then none
      else some (record {
        fact = record {
          cue_type = cue_type;
          source_event_id = source.event_id;
          occurred_ms = source.time_ms;
          details = encode_details (record {
            gunshot = gunshot;
            source = source;
            result = reported gunshot result;
            distance = round1 fl lib distance;
            direction = round1 fl lib direction;
            speed = round1 fl lib source.data_of.movement_speed;
          });
          source_authority = if str_eq source.authority "" then "A" else source.authority;
        };
        class = class.0;
        rank = class.1;
      })

  -- the positions of the observer and of the source, where both are known
  positions_of : CueEvent F → Observation F → List (PositionSample F) → Option (Vector F × Vector F)
  positions_of source x samples =
      elim (nearest_position zero_vector
        (samples_at (player_key x.server_id x.server_session_id x.observer_player_session_id)
          samples)
        source.time_ms config.snapshot_tolerance_ms) [
          | none ↦ none
          | some here ↦ elim (vector3 source.data_of.position) [
            | none ↦ none
            | some there ↦ some (here, there)
          ]
        ]

  pub gunshot_cue : CueEvent F → Observation F → List (PositionSample F) → Option CandidateCue
  unfolding cue_of positions_of
  gunshot_cue source x samples = elim (positions_of source x samples) [
    | none ↦ none
    | some p ↦
        let distance = distance3 fl lib p.0 p.1 in
        cue_of "GUNSHOT_AUDIO_OPPORTUNITY" true source
          (classify_gunshot fl
            (record { distance = distance; suppressed = source.data_of.is_suppressed }))
          distance (direction_degrees fl lib p.0 p.1)
  ]

  pub footstep_cue : CueEvent F → Observation F → List (PositionSample F) → Option CandidateCue
  unfolding cue_of positions_of
  footstep_cue source x samples = elim (positions_of source x samples) [
    | none ↦ none
    | some p ↦
        let distance = distance3 fl lib p.0 p.1 in
        cue_of "FOOTSTEP_AUDIO_OPPORTUNITY" false source
          (classify_footstep fl cases (record {
            distance = distance;
            speed = source.data_of.movement_speed;
            stance = source.data_of.stance;
            surface_type = source.data_of.surface_type;
            footwear = source.data_of.footwear_type;
          }))
          distance (direction_degrees fl lib p.0 p.1)
  ]

  -- the best gunshot and the best footstep so far
  abbrev Best : Type 0
  Best = Option CandidateCue × Option CandidateCue

  weigh : String → CueEvent F → Observation F → List (PositionSample F) → Best → Best
  unfolding gunshot_cue footstep_cue keep_better
  weigh target_id e x samples best =
      let age_ms = sub64 x.started_ms e.time_ms in
      if str_eq e.event_type "SHOT_FIRED_SERVER"
      then (if ltb_ℤ config.gunshot_lookback_ms age_ms
            || not (str_eq e.data_of.source_player_id target_id)
          then best
          else (keep_better (gunshot_cue e x samples) best.0, best.1))
      else if str_eq e.event_type "MOVEMENT_AUDIO_OPPORTUNITY"
      then (if ltb_ℤ config.footstep_lookback_ms age_ms
            || (not (str_eq e.player_session_id x.target_player_session_id)
                && not (str_eq e.data_of.source_player_id target_id))
          then best
          else (best.0, keep_better (footstep_cue e x samples) best.1))
      else best

  -- the loop over the events of the session, which breaks behind the start of the observation
  search_events : String → List (CueEvent F) → Observation F → List (PositionSample F) → Best → Best
  unfolding weigh
  search_events target_id [] x samples best = best
  search_events target_id (e ∷ es) x samples best =
      let rest = search_events target_id es x samples (weigh target_id e x samples best) in
      if ltb_ℤ x.started_ms e.time_ms then best else rest

  pub enrich_one : Index fl lib → Observation F → Observation F
  unfolding search_events
  enrich_one index x =
      let target_id = raw_durable_id x.target_player_session_id in
      let best =
        search_events target_id (events_at (session_key x.server_id x.server_session_id) index.0) x
          index.1 (none, none) in
      if str_eq target_id "" then x else add_cue best.1 (add_cue best.0 x)

  enrich_all : Index fl lib → List (Observation F) → List (Observation F)
  unfolding enrich_one
  enrich_all index [] = []
  enrich_all index (x ∷ xs) = enrich_one index x ∷ enrich_all index xs

  abbrev not_positive : ℤ → Bool
  not_positive n = not (ltb_ℤ (pos 0) n)

  pub enrich : List (Observation F) → List Batch → List (Observation F) ⊎ EnrichError
  unfolding enrich_all
  enrich items batches =
      if not_positive config.gunshot_lookback_ms
        || (not_positive config.footstep_lookback_ms || not_positive config.snapshot_tolerance_ms)
      then inr not_positive_config
      else elim (index_events fl lib batches) [
        | none ↦ inr decode_failed
        | some index ↦ inl (enrich_all index items)
      ]
