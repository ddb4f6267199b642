-- ===== src/Ledger.antt =====
-- internal/cues/audio.go: the ledger of audio cues, its events and its geometry. The float operations,
-- the JSON codec and the digits of a number are parameters.
pub mod Enrich
use Prim.Native.Char.{code}
use dayz_behaviour.Prelude.{
  ℕ, ◌+◌, Bool, true, false, ◌&&◌, ◌||◌, not, Option, none, some, List, [], ◌∷◌, ◌++◌, String, ltb,
  if◌then◌else◌,
}
use dayz_behaviour.Prelude.Int.{ℤ, pos, ltb_ℤ}
use dayz_behaviour.Prelude.Words.{add64, sub64}
use dayz_behaviour.Prelude.Text.{str_eq, len, ◌<>◌}
use dayz_behaviour.Floats.{Floats}
use dayz_behaviour.Schema.{Batch, Event}

pub record LedgerConfig : Type 0 where
  pub gunshot_lookback_ms : ℤ
  pub footstep_lookback_ms : ℤ
  pub snapshot_tolerance_ms : ℤ

abbrev pub default_ledger_config : LedgerConfig
default_ledger_config = record {
  gunshot_lookback_ms = pos 30000;
  footstep_lookback_ms = pos 5000;
  snapshot_tolerance_ms = pos 2000;
}

pub record CuePayload (F : Type 0) : Type 0 where
  pub source_player_id : String
  pub weapon_type : String
  pub ammo : String
  pub is_suppressed : Bool
  pub suppressor_type : String
  pub position : List F
  pub movement_speed : F
  pub movement_state : String
  pub stance : String
  pub surface_type : String
  pub footwear_type : String

-- an event with the key of its session; the two ids that only the key uses are in the key
pub record CueEvent (F : Type 0) : Type 0 where
  pub key : String
  pub player_session_id : String
  pub event_type : String
  pub event_id : String
  pub time_ms : ℤ
  pub authority : String
  pub data_of : CuePayload F

pub record Vector (F : Type 0) : Type 0 where
  pub x : F
  pub y : F
  pub z : F

-- a snapshot under the key of its player
pub record PositionSample (F : Type 0) : Type 0 where
  pub key : String
  pub time_ms : ℤ
  pub position : Vector F

-- the trigonometry, math.Round, json.Unmarshal into a payload, and the digits of fmt
pub record LedgerLib (F : Type 0) : Type 0 where
  pub atan2 : F → F → F
  pub pi : F
  pub round : F → F
  pub decode : String → Option (CuePayload F)
  pub zero_payload : CuePayload F
  pub print_nat : ℕ → String

abbrev pub session_key : String → String → String
session_key server_id server_session_id = server_id <> ("\0" <> server_session_id)

abbrev pub player_key : String → String → String → String
player_key server_id server_session_id player_session_id =
    session_key server_id server_session_id <> ("\0" <> player_session_id)

pub vector3 : {F : Type 0} → List F → Option (Vector F)
vector3 (a ∷ b ∷ c ∷ []) = some (record { x = a; y = b; z = c })
vector3 _ = none

module _ {F : Type 0} where
  insert_by_time : CueEvent F → List (CueEvent F) → List (CueEvent F)
  insert_by_time e [] = e ∷ []
  insert_by_time e (d ∷ ds) =
      let rest = insert_by_time e ds in if ltb_ℤ d.time_ms e.time_ms then d ∷ rest else e ∷ d ∷ ds

  -- sort.SliceStable
  pub sort_by_time : List (CueEvent F) → List (CueEvent F)
  unfolding insert_by_time
  sort_by_time [] = []
  sort_by_time (e ∷ es) = insert_by_time e (sort_by_time es)

  -- events[key], in the order of their times
  with_key : String → List (CueEvent F) → List (CueEvent F)
  with_key key [] = []
  with_key key (e ∷ es) = let rest = with_key key es in if str_eq e.key key then e ∷ rest else rest

  pub events_at : String → List (CueEvent F) → List (CueEvent F)
  unfolding with_key sort_by_time
  events_at key events = sort_by_time (with_key key events)

  insert_sample : PositionSample F → List (PositionSample F) → List (PositionSample F)
  insert_sample s [] = s ∷ []
  insert_sample s (t ∷ ts) =
      let rest = insert_sample s ts in if ltb_ℤ t.time_ms s.time_ms then t ∷ rest else s ∷ t ∷ ts

  samples_with : String → List (PositionSample F) → List (PositionSample F)
  unfolding insert_sample
  samples_with key [] = []
  samples_with key (s ∷ ss) =
      let rest = samples_with key ss in if str_eq s.key key then insert_sample s rest else rest

  -- snapshots[key]: sorted as they are picked out
  pub samples_at : String → List (PositionSample F) → List (PositionSample F)
  unfolding samples_with
  samples_at key samples = samples_with key samples

  -- the best sample and its delta
  nearest_from : List (PositionSample F) → ℤ → ℤ → Vector F × ℤ → Vector F × ℤ
  nearest_from [] at_ms tolerance best = best
  nearest_from (s ∷ ss) at_ms tolerance best =
      let delta = sub64 at_ms s.time_ms in
      nearest_from ss at_ms tolerance (
        if not (ltb_ℤ at_ms s.time_ms) && (not (ltb_ℤ tolerance delta) && ltb_ℤ delta best.1)
        then (s.position, delta)
        else best)

  pub nearest_position : Vector F → List (PositionSample F) → ℤ → ℤ → Option (Vector F)
  unfolding nearest_from
  nearest_position zero samples at_ms tolerance =
      let best = nearest_from samples at_ms tolerance (zero, add64 tolerance (pos 1)) in
      if ltb_ℤ tolerance best.1 then none else some best.0

module _ (fl : Floats) (lib : LedgerLib fl.F) where
  open fl use {F, lt, add, sub, mul, div, sqrt, of_int}

  pub distance3 : Vector F → Vector F → F
  distance3 left right =
      let dx = sub right.x left.x in
      let dy = sub right.y left.y in
      let dz = sub right.z left.z in sqrt (add (add (mul dx dx) (mul dy dy)) (mul dz dz))

  pub direction_degrees : Vector F → Vector F → F
  direction_degrees observer source =
      let degrees =
        div (mul (lib.atan2 (sub source.x observer.x) (sub source.z observer.z)) (of_int 180))
          lib.pi in
      if lt degrees (of_int 0) then add degrees (of_int 360) else degrees

  pub round1 : F → F
  round1 value = div (lib.round (mul value (of_int 10))) (of_int 10)

  event_of : Batch → Event → CuePayload F → CueEvent F
  event_of b e p = record {
    key = session_key b.server_id b.server_session_id;
    player_session_id = e.player_session_id;
    event_type = e.event_type;
    event_id =
        if str_eq e.source_event_id ""
        then b.server_session_id <> (":" <> lib.print_nat e.server_sequence)
        else e.source_event_id;
    time_ms = e.server_time_ms;
    authority = e.source_authority;
    data_of = p;
  }

  sample_of : Batch → Event → CuePayload F → List (PositionSample F)
  unfolding vector3
  sample_of b e p = elim (vector3 p.position) [
    | none ↦ []
    | some v ↦
        if str_eq e.event_type "PLAYER_SNAPSHOT"
        then record {
          key = player_key b.server_id b.server_session_id e.player_session_id;
          time_ms = e.server_time_ms;
          position = v;
        }
          ∷ []
        else []
  ]

  abbrev pub Index : Type 0
  Index = List (CueEvent F) × List (PositionSample F)

  index_batch : Batch → List Event → Option Index → Option Index
  unfolding event_of sample_of
  index_batch b [] rest = rest
  index_batch b (e ∷ es) rest =
      let more = index_batch b es rest in
      let decoded = if ltb 0 (len e.payload) then lib.decode e.payload else some lib.zero_payload in
      elim decoded [
        | none ↦ none
        | some p ↦ elim more [
          | none ↦ none
          | some r ↦ some (event_of b e p ∷ r.0, sample_of b e p ++ r.1)
        ]
      ]

  -- indexEvents; none is the error of a payload that does not decode
  pub index_events : List Batch → Option Index
  unfolding index_batch
  index_events [] = some ([], [])
  index_events (b ∷ bs) = index_batch b b.events (index_events bs)
