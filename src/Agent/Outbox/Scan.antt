-- ===== src/Agent/Outbox/Scan.antt =====
-- OpenOutbox and scan of internal/agent/outbox.go: the queue is rebuilt from the files at start.
use Prim.Native.String.{compare, slice}
use Prim.Native.Nat.{Ordering}
use dayz_behaviour.Prelude.{
  ℕ, ◌+◌, ◌-◌, Bool, true, false, ◌&&◌, ◌||◌, not, Option, none, some, List, [], ◌∷◌, ◌++◌, String,
  ◌⊎◌, inl, inr, leb, ◌==◌, if◌then◌else◌,
}
use dayz_behaviour.Prelude.Int.{ℤ, pos, ltb_ℤ}
use dayz_behaviour.Prelude.Words.{add64}
use dayz_behaviour.Prelude.Text.{str_eq, len, ◌<>◌}
use text.Mathlib.Text.{find?}
use dayz_behaviour.Agent.Outbox.{Outbox, QueuedFile, mark}

pub data OpenError : Type 0 where
  names_required limits_not_positive outbox_directory dead_letter_directory : OpenError
  scan_outbox scan_dead_letters : OpenError

-- what the start meets: faults of the two MkdirAll, what WalkDir meets below each directory (`none`
-- where it fails), files only
pub record OpenEnv : Type 0 where
  pub outbox_mkdir_fails : Bool
  pub dead_letter_mkdir_fails : Bool
  pub walk_outbox : Option (List QueuedFile)
  pub walk_dead_letters : Option (List String)

unfoldable pub text_lt : String → String → Bool
text_lt a b = elim (compare a b) [ Ordering.lt ↦ true | _ ↦ false ]

unfoldable pub has_suffix : String → String → Bool
has_suffix s suffix =
    leb (len suffix) (len s) && str_eq (slice s (len s - len suffix) (len s)) suffix

unfoldable pub contains : String → String → Bool
contains s part = elim (find? s part) [ some i ↦ true | none ↦ false ]

equal_times : ℤ → ℤ → Bool
equal_times a b = not (ltb_ℤ a b) && not (ltb_ℤ b a)

-- the order of the sort: modification time, then path
unfoldable pub older : QueuedFile → QueuedFile → Bool
unfolding text_lt equal_times
older f g =
    if equal_times f.mod_time g.mod_time then text_lt f.path g.path else ltb_ℤ f.mod_time g.mod_time

pub insert_by_age : QueuedFile → List QueuedFile → List QueuedFile
insert_by_age f [] = f ∷ []
insert_by_age f (g ∷ gs) =
    let rest = insert_by_age f gs in if older g f then g ∷ rest else f ∷ g ∷ gs

-- sort.Slice; distinct paths make the order total, so that the result is determined
pub sort_by_age : List QueuedFile → List QueuedFile
sort_by_age [] = []
sort_by_age (f ∷ fs) = insert_by_age f (sort_by_age fs)

-- filepath.Ext(path) == ".json", for a file whose name has an extension
pub json_files : List QueuedFile → List QueuedFile
json_files [] = []
json_files (f ∷ fs) =
    let rest = json_files fs in if has_suffix f.path ".json" then f ∷ rest else rest

pub load : List QueuedFile → Outbox → Outbox
load [] o = o
load (f ∷ fs) o = load fs (record o {
  items = o.items ++ f ∷ [];
  known = mark f.path true o.known;
  bytes = add64 o.bytes (pos f.size);
})

-- the names are those of files: filepath.Base of each path
count_dead_letters : List String → ℕ
count_dead_letters [] = 0
count_dead_letters (name ∷ names) =
    let rest = count_dead_letters names in
    if contains name ".json" && not (has_suffix name ".reason.json") then rest + 1 else rest

pub scan : OpenEnv → Outbox → Outbox ⊎ OpenError
scan env o = elim env.walk_outbox [
  | none ↦ inr scan_outbox
  | some files ↦
      let loaded = load (sort_by_age (json_files files)) o in
      elim env.walk_dead_letters [
        | none ↦ inr scan_dead_letters
        | some names ↦ inl (record loaded { dead_letters = count_dead_letters names })
      ]
]

pub empty_outbox : String → String → ℕ → ℕ → Outbox
empty_outbox data_dir server_id max_bytes max_batches = record {
  root = data_dir <> "/outbox";
  dead_letter_dir = data_dir <> "/dead-letter";
  server_id = server_id;
  max_bytes = max_bytes;
  max_batches = max_batches;
  items = [];
  known = λ q. false;
  bytes = pos 0;
  dead_letters = 0;
  wake = false;
}

-- the limits are signed in the code; a limit that is not positive is refused either way
pub open_outbox : OpenEnv → String → String → ℕ → ℕ → Outbox ⊎ OpenError
open_outbox env data_dir server_id max_bytes max_batches =
    if str_eq data_dir "" || str_eq server_id ""
    then inr names_required
    else if max_bytes == 0 || max_batches == 0
    then inr limits_not_positive
    else if env.outbox_mkdir_fails
    then inr outbox_directory
    else if env.dead_letter_mkdir_fails
    then inr dead_letter_directory
    else scan env (empty_outbox data_dir server_id max_bytes max_batches)
