-- ===== src/Explorer.antt =====
-- internal/explorer/explorer.go: the repository in memory, its filters and its paging. The decoded payload
-- is Json; float64, its parser, strings.ToLower and strings.Fields are parameters.
use dayz_behaviour.Prelude.{
  ℕ, Bool, false, ◌&&◌, ◌||◌, Option, none, some, List, [], ◌∷◌, String, ltb, length, take,
  if◌then◌else◌, ◌⊎◌, inl, inr,
}
use dayz_behaviour.Prelude.Int.{ℤ, pos, negsuc, ltb_ℤ}
use dayz_behaviour.Prelude.Text.{str_eq, is_blank, trim, ◌<>◌}
use dayz_behaviour.Prelude.Split.{split}
use dayz_behaviour.Json.{Json, Items, Fields, number, text, array, item, get_field, as_text}
use dayz_behaviour.Agent.Outbox.Scan.{contains}

pub record SessionQuery : Type 0 where
  pub server_id : String
  pub search : String
  pub limit : ℤ

pub record TimelineQuery : Type 0 where
  pub player_session_id : String
  pub from_ms : Option ℤ
  pub to_ms : Option ℤ
  pub limit : ℤ

pub record Session : Type 0 where
  pub player_session_id : String
  pub durable_player_id : String
  pub server_id : String
  pub server_session_id : String
  pub started_ms : ℤ
  pub ended_ms : Option ℤ
  pub event_count : ℕ

pub record Location (N : Type 0) : Type 0 where
  pub x : N
  pub y : N
  pub z : N
  pub accuracy_metres : ℕ
  pub source_field : String
  pub subject_session_id : String

pub record Entry (N : Type 0) : Type 0 where
  pub source_event_id : String
  pub event_type : String
  pub source : String
  pub authority : String
  pub server_time_ms : ℤ
  pub server_receive_ms : ℤ
  pub player_session_id : String
  pub related_session_ids : List String
  pub summary : String
  pub payload : Fields N
  pub location : Option (Location N)

pub record Timeline (N : Type 0) : Type 0 where
  pub session : Session
  pub entries : List (Entry N)
  pub map_id : String
  pub limited : Bool

-- `entries_of` is the map of the entries, empty for a missing session
pub record ExplorerRepository (N : Type 0) : Type 0 where
  pub sessions : List Session
  pub entries_of : String → List (Entry N)

-- `cell_centre n` is n * 100 + 50; `fields` splits a text whose commas and brackets were made blanks
pub record ExplorerLib (N : Type 0) : Type 0 where
  pub is_zero : N → Bool
  pub zero_number : N
  pub parse_float : String → Option N
  pub cell_centre : N → N
  pub to_lower : String → String
  pub fields : String → List String

pub data TimelineError : Type 0 where
  session_required session_not_found : TimelineError

pub normal_limit : ℤ → ℕ → ℕ → ℕ
normal_limit (pos n) fallback maximum =
    if ltb 0 n then (if ltb maximum n then maximum else n) else fallback
normal_limit (negsuc n) fallback maximum = fallback

insert_session : Session → List Session → List Session
insert_session s [] = s ∷ []
insert_session s (t ∷ ts) =
    let rest = insert_session s ts in
    if ltb_ℤ s.started_ms t.started_ms then t ∷ rest else s ∷ t ∷ ts

-- the latest first; sort.Slice leaves the order of equal starts open
sort_sessions : List Session → List Session
unfolding insert_session
sort_sessions [] = []
sort_sessions (s ∷ ss) = insert_session s (sort_sessions ss)

find_session : String → List Session → Option Session
find_session id [] = none
find_session id (s ∷ ss) = if str_eq s.player_session_id id then some s else find_session id ss

module _ {N : Type 0} (lib : ExplorerLib N) where
  contains_fold : String → String → Bool
  contains_fold value search = contains (lib.to_lower value) (lib.to_lower search)

  pub is_listed : SessionQuery → Session → Bool
  unfolding contains_fold
  is_listed q s =
      (str_eq q.server_id "" || str_eq q.server_id s.server_id)
      && (str_eq q.search ""
          || contains_fold
              (s.player_session_id <> (" " <> (s.durable_player_id <> (" " <> s.server_id))))
              q.search)

  listed_sessions : SessionQuery → List Session → List Session
  unfolding is_listed
  listed_sessions q [] = []
  listed_sessions q (s ∷ ss) =
      let rest = listed_sessions q ss in if is_listed q s then s ∷ rest else rest

  pub list_sessions : ExplorerRepository N → SessionQuery → List Session
  unfolding listed_sessions sort_sessions normal_limit
  list_sessions r q =
      take (normal_limit q.limit 100 500) (sort_sessions (listed_sessions q r.sessions))

  as_coordinate : Json N → Option N
  as_coordinate (number n) = some n
  as_coordinate _ = none

  three : Option N → Option N → Option N → Option (N × N × N)
  three (some x) (some y) (some z) = some (x, y, z)
  three _ _ _ = none

  vector_items : Items N → Option (N × N × N)
  unfolding as_coordinate three
  vector_items (item a (item b (item c rest))) =
      three (as_coordinate a) (as_coordinate b) (as_coordinate c)
  vector_items _ = none

  vector_parts : List String → Option (N × N × N)
  unfolding three
  vector_parts (a ∷ b ∷ c ∷ rest) =
      three (lib.parse_float a) (lib.parse_float b) (lib.parse_float c)
  vector_parts _ = none

  pub vector_of : Option (Json N) → Option (N × N × N)
  unfolding vector_items vector_parts
  vector_of (some (array items)) = vector_items items
  vector_of (some (text s)) = vector_parts (lib.fields s)
  vector_of _ = none

  -- the fields that hold a position, each with its accuracy in metres
  abbrev position_fields : List (String × ℕ)
  position_fields =
      ("position", 1)
      ∷ ("observer_origin", 1)
      ∷ ("model_position", 2)
      ∷ ("camera_position", 5)
      ∷ ("client_observed_player_position", 5)
      ∷ []

  cell_location : Entry N → List String → Option (Location N)
  cell_location e (a ∷ b ∷ []) = elim (lib.parse_float a) [
    | none ↦ none
    | some x ↦ elim (lib.parse_float b) [
      | none ↦ none
      | some z ↦ some (record {
        x = lib.cell_centre x;
        y = lib.zero_number;
        z = lib.cell_centre z;
        accuracy_metres = 71;
        source_field = "area_cell";
        subject_session_id = e.player_session_id;
      })
    ]
  ]
  cell_location e _ = none

  area_cell : Entry N → String
  area_cell e = elim (as_text (get_field "area_cell" e.payload)) [ none ↦ "" | some cell ↦ cell ]

  -- the first field with a position that is not the origin, and else the area cell
  find_location : Entry N → List (String × ℕ) → Option (Location N)
  unfolding cell_location area_cell
  find_location e [] = cell_location e (split b':' (area_cell e))
  find_location e ((name, accuracy) ∷ rest) =
      let later = find_location e rest in
      elim (vector_of (get_field name e.payload)) [
        | none ↦ later
        | some v ↦
            if lib.is_zero v.0 && (lib.is_zero v.1 && lib.is_zero v.2)
            then later
            else some (record {
              x = v.0;
              y = v.1;
              z = v.2;
              accuracy_metres = accuracy;
              source_field = name;
              subject_session_id = e.player_session_id;
            })
      ]

  pub enrich_entry : Entry N → Entry N
  unfolding find_location
  enrich_entry e = elim e.location [
    | some known ↦ e
    | none ↦ record e { location = find_location e position_fields }
  ]

  abbrev is_before : ℤ → Option ℤ → Bool
  is_before t none = false
  is_before t (some bound) = ltb_ℤ t bound

  abbrev is_after : ℤ → Option ℤ → Bool
  is_after t none = false
  is_after t (some bound) = ltb_ℤ bound t

  insert_entry : Entry N → List (Entry N) → List (Entry N)
  insert_entry e [] = e ∷ []
  insert_entry e (d ∷ ds) =
      let rest = insert_entry e ds in
      if ltb_ℤ d.server_time_ms e.server_time_ms then d ∷ rest else e ∷ d ∷ ds

  -- the entries in the window of the query, enriched, in the order of their times
  pub window_entries : TimelineQuery → List (Entry N) → List (Entry N)
  unfolding enrich_entry insert_entry
  window_entries q [] = []
  window_entries q (e ∷ es) =
      let rest = window_entries q es in
      if is_before e.server_time_ms q.from_ms || is_after e.server_time_ms q.to_ms
      then rest
      else insert_entry (enrich_entry e) rest

  timeline_map_id : List (Entry N) → String
  timeline_map_id [] = ""
  timeline_map_id (e ∷ es) =
      let later = timeline_map_id es in
      elim (as_text (get_field "map_id" e.payload)) [
        | none ↦ later
        | some value ↦ if is_blank value then later else lib.to_lower (trim value)
      ]

  pub timeline : ExplorerRepository N → TimelineQuery → Timeline N ⊎ TimelineError
  unfolding find_session window_entries timeline_map_id normal_limit
  timeline r q =
      let limit = normal_limit q.limit 500 2000 in
      let entries = window_entries q (r.entries_of q.player_session_id) in
      let shown = take limit entries in
      if str_eq q.player_session_id ""
      then inr session_required
      else elim (find_session q.player_session_id r.sessions) [
        | none ↦ inr session_not_found
        | some s ↦ inl (record {
          session = s;
          entries = shown;
          map_id = timeline_map_id shown;
          limited = ltb limit (length entries);
        })
      ]
