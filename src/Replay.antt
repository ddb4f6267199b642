-- ===== src/Replay.antt =====
-- internal/replay/replay.go: the raw batches are handed to a sink, and a tracker notes their paths.
-- The sink is a function on a state of its own; the walk, the files and the strict decoder are inputs.
use dayz_behaviour.Prelude.{
  ℕ, ◌+◌, Bool, true, false, ◌||◌, not, Option, none, some, List, [], ◌∷◌, String, length,
  if◌then◌else◌,
}
use dayz_behaviour.Prelude.Text.{str_eq, is_blank}
use dayz_behaviour.Prelude.Extension.{has_extension}
use dayz_behaviour.Json.{JsonLib}
use dayz_behaviour.Schema.{Batch, SchemaError, validate}

pub data ReplayError : Type 0 where
  root_required walk_failed cancelled read_failed decode_failed sink_failed : ReplayError
  invalid : SchemaError → ReplayError

pub record ReplayStats : Type 0 where
  pub batches : ℕ
  pub events : ℕ

-- what WalkDir hands to the callback: an error, or a file with the state of the context and what
-- ReadFile returns
pub data Visit : Type 0 where
  unreadable : Visit
  file : String → Bool → Option String → Visit

-- `seen` is none for Run, and the set of the tracker for its Run
pub record Replay (S : Type 0) : Type 0 where
  pub seen : Option (List String)
  pub stats : ReplayStats
  pub sink : S

pub is_seen : String → List String → Bool
is_seen path [] = false
is_seen path (p ∷ ps) = str_eq p path || is_seen path ps

has_seen : String → Option (List String) → Bool
unfolding is_seen
has_seen path none = false
has_seen path (some paths) = is_seen path paths

note : String → Option (List String) → Option (List String)
note path none = none
note path (some paths) = some (path ∷ paths)

module _ (json : JsonLib) (decode : String → Option Batch) {S : Type 0}
    (accept : Batch → S → S × Bool) where
  abbrev Outcome : Type 0
  Outcome = Replay S × Option ReplayError

  after_accept : String → Batch → Replay S → S × Bool → Outcome
  unfolding note
  after_accept path b r (sink, false) = (record r { sink = sink }, some sink_failed)
  after_accept path b r (sink, true) = (
    record {
      seen = note path r.seen;
      stats = record { batches = r.stats.batches + 1; events = r.stats.events + length b.events };
      sink = sink;
    },
    none,
  )

  replay_content : String → Option String → Replay S → Outcome
  unfolding after_accept
  replay_content path none r = (r, some read_failed)
  replay_content path (some content) r = elim (decode content) [
    | none ↦ (r, some decode_failed)
    | some b ↦ elim (validate json b) [
      | some e ↦ (r, some (invalid e))
      | none ↦ after_accept path b r (accept b r.sink)
    ]
  ]

  pub replay_visit : Visit → Replay S → Outcome
  unfolding replay_content has_seen
  replay_visit unreadable r = (r, some walk_failed)
  replay_visit (file path done content) r =
      if done
      then (r, some cancelled)
      else if not (has_extension ".json" path) || has_seen path r.seen
      then (r, none)
      else replay_content path content r

  pub replay_all : List Visit → Replay S → Outcome
  unfolding replay_visit
  replay_all [] r = (r, none)
  replay_all (v ∷ vs) r =
      let next = replay_visit v r in
      let rest = replay_all vs next.0 in elim next.1 [ some e ↦ next | none ↦ rest ]

  -- Run, and Run of a tracker with the paths it has seen
  pub replay_run : String → List Visit → Option (List String) → S → Outcome
  unfolding replay_all
  replay_run root visits seen sink =
      let start : Replay S = record {
        seen = seen;
        stats = record { batches = 0; events = 0 };
        sink = sink;
      } in
      if is_blank root then (start, some root_required) else replay_all visits start
