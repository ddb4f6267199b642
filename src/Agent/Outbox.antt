-- ===== src/Agent/Outbox.antt =====
-- internal/agent/outbox.go: the queue of batch files. The lock serialises the methods, so each is one
-- step on the outbox and the disk. Sizes and totals are int64.
pub mod Cases
pub mod Items
pub mod Invariant
pub mod Put
pub mod DeadLetter
pub mod Order
pub mod Queue
pub mod Scan
pub mod Examples
mod Witness
use dayz_behaviour.Prelude.{
  ℕ, zero, suc, ◌+◌, Bool, true, false, ◌&&◌, ◌||◌, not, Option, none, some, List, [], ◌∷◌, ◌++◌,
  String, ltb, leb, ◌==◌, if◌then◌else◌, length, inl, inr, ◌⊎◌, get_elem?,
}
use Prim.Native.String.{slice}
use dayz_behaviour.Prelude.Int.{ℤ, pos, ltb_ℤ}
use dayz_behaviour.Prelude.Words.{add64, sub64}
use dayz_behaviour.Prelude.Text.{str_eq, len, sanitise, pad20, ◌<>◌, starts_with}
use dayz_behaviour.Disk.{
  Disk, WriteEnv, WriteError, write_file, remove_file, rename_file, atomic_write,
}
use dayz_behaviour.Schema.{Batch}

pub data OutboxError : Type 0 where
  server_id_mismatch marshal_failed already_stored batch_conflict inspect_failed queue_full :
      OutboxError
  write_failed : WriteError → OutboxError
  path_required read_failed remove_failed resolve_failed : OutboxError
  dead_letter_directory inspect_dead_letter move_failed : OutboxError

pub record QueueItem : Type 0 where
  pub path : String
  pub size : ℕ

pub record QueuedFile : Type 0 where
  pub path : String
  pub size : ℕ
  pub mod_time : ℤ

pub record QueueStats : Type 0 where
  pub batches : ℕ
  pub bytes : ℤ
  pub dead_letters : ℕ
  pub max_batches : ℕ
  pub max_bytes : ℕ

-- `known` is the set of the queued paths; `wake` says that the channel holds its one token
pub record Outbox : Type 0 where
  pub root : String
  pub dead_letter_dir : String
  pub server_id : String
  pub max_bytes : ℕ
  pub max_batches : ℕ
  pub items : List QueuedFile
  pub known : String → Bool
  pub bytes : ℤ
  pub dead_letters : ℕ
  pub wake : Bool

unfoldable pub batch_path : Outbox → Batch → String
batch_path o batch =
    o.root
    <> ("/"
        <> (sanitise batch.server_id
            <> ("/"
                <> (sanitise batch.server_session_id
                    <> ("/" <> (pad20 batch.batch_sequence <> ".json"))))))

signal : Outbox → Outbox
signal o = record o { wake = true }

abbrev pub mark : String → Bool → (String → Bool) → String → Bool
mark path present known q = if str_eq path q then present else known q

-- what one Put meets outside: the encoder's answer, whether os.ReadFile fails with something else
-- than "not exist", the clock, and the atomic write
pub record PutEnv : Type 0 where
  pub marshal : Batch → Option String
  pub read_fails : Bool
  pub now : ℤ
  pub write : WriteEnv

-- the second half of Put: the batch file is written and queued
enqueue : QueuedFile → Outbox → Outbox
unfolding signal
enqueue item o = signal (record o {
  items = o.items ++ item ∷ [];
  known = mark item.path true o.known;
  bytes = add64 o.bytes (pos item.size);
})

-- len(o.items) >= o.maxBatches || o.bytes+int64(len(data)) > o.maxBytes
pub has_no_room : Outbox → ℕ → Bool
has_no_room o size =
    leb o.max_batches (length o.items) || ltb_ℤ (pos o.max_bytes) (add64 o.bytes (pos size))

-- the return of Put after atomicWrite
pub finish_put : QueuedFile → Outbox → Disk × Option WriteError → Outbox × Disk × Option OutboxError
unfolding enqueue
finish_put item o (disk, some e) = (o, disk, some (write_failed e))
finish_put item o (disk, none) = (enqueue item o, disk, none)

put_content : PutEnv → String → String → Outbox → Disk → Outbox × Disk × Option OutboxError
put_content env path content o disk =
    if env.read_fails then (o, disk, some inspect_failed) else elim (disk path) [
      | some existing ↦
          (o, disk, some (if str_eq existing content then already_stored else batch_conflict))
      | none ↦
          if has_no_room o (len content)
          then (o, disk, some queue_full)
          else finish_put (record { path = path; size = len content; mod_time = env.now }) o
              (atomic_write env.write path content disk)
    ]

pub put : PutEnv → Batch → Outbox → Disk → Outbox × Disk × Option OutboxError
put env batch o disk =
    if not (str_eq batch.server_id o.server_id)
    then (o, disk, some server_id_mismatch)
    else elim (env.marshal batch) [
      | none ↦ (o, disk, some marshal_failed)
      | some text ↦ put_content env (batch_path o batch) (text <> "\n") o disk
    ]

pub peek : Outbox → Option QueueItem
peek o = elim o.items [ [] ↦ none | f ∷ rest ↦ some (record { path = f.path; size = f.size }) ]

-- os.ReadFile may fail although the file is there
pub read : Bool → QueueItem → Disk → String ⊎ OutboxError
read fails item disk =
    if str_eq item.path ""
    then inr path_required
    else if fails
    then inr read_failed
    else elim (disk item.path) [ some content ↦ inl content | none ↦ inr read_failed ]

pub index_from : ℕ → String → List QueuedFile → Option ℕ
index_from i path [] = none
index_from i path (f ∷ fs) =
    let rest = index_from (i + 1) path fs in if str_eq f.path path then some i else rest

pub index_of : Outbox → String → Option ℕ
index_of o path = if o.known path then index_from 0 path o.items else none

pub remove_nth : ℕ → List QueuedFile → List QueuedFile
remove_nth i [] = []
remove_nth zero (f ∷ fs) = fs
remove_nth (suc i) (f ∷ fs) = f ∷ remove_nth i fs

drop_item : ℕ → Option QueuedFile → Outbox → Outbox
drop_item index none o = o
drop_item index (some item) o = record o {
  items = remove_nth index o.items;
  known = mark item.path false o.known;
  bytes = sub64 o.bytes (pos item.size);
}

-- removeAt; an index out of range would panic, and indexOf returns none such
pub remove_at : ℕ → Outbox → Outbox
remove_at index o = drop_item index (get_elem? o.items index) o

abbrev is_absent {ℓ} : {A : Type ℓ} → Option A → Bool
is_absent none = true
is_absent (some a) = false

-- what one Remove meets: os.Remove fails with something else than "not exist"
pub remove : Bool → QueueItem → Outbox → Disk → Outbox × Disk × Option OutboxError
remove fails item o disk = elim (index_of o item.path) [
  | none ↦ (o, disk, none)
  | some index ↦
      if fails
      then (o, disk, some remove_failed)
      else (remove_at index o, remove_file disk item.path, none)
]

-- what one DeadLetter meets: the faults of MkdirAll, Stat and Rename, the clock's stamp, the encoded
-- metadata, and the atomic write of the reason file
pub record DeadLetterEnv : Type 0 where
  pub mkdir_fails : Bool
  pub stat_fails : Bool
  pub rename_fails : Bool
  pub stamp : String
  pub metadata : String → Option String
  pub write : WriteEnv

-- filepath.Rel(root, path) of a path below `root`, which every queued path is
pub relative : String → String → Option String
relative root path =
    let prefix = root <> "/" in
    if starts_with path prefix then some (slice path (len prefix) (len path)) else none

-- a name that is taken gets the time behind it
pub dead_letter_name : DeadLetterEnv → Disk → String → String
dead_letter_name env disk destination = elim (disk destination) [
  | some old ↦ destination <> ("." <> env.stamp)
  | none ↦ destination
]

-- the reason beside the moved batch; an error here is dropped
pub write_reason : DeadLetterEnv → String → String → Disk → Disk
write_reason env reason destination disk = elim (env.metadata reason) [
  | none ↦ disk
  | some text ↦ (atomic_write env.write (destination <> ".reason.json") (text <> "\n") disk).0
]

pub move_to :
    DeadLetterEnv
    → String
    → String
    → ℕ
    → String
    → Outbox
    → Disk
    → Outbox × Disk × Option OutboxError
move_to env path reason index destination o disk =
    if env.rename_fails || is_absent (disk path) then (o, disk, some move_failed) else (
      (let o' = remove_at index o in record o' { dead_letters = o'.dead_letters + 1 }),
      write_reason env reason destination (rename_file disk path destination),
      none,
    )

pub bury :
    DeadLetterEnv
    → String
    → String
    → ℕ
    → Option String
    → Outbox
    → Disk
    → Outbox × Disk × Option OutboxError
bury env path reason index none o disk = (o, disk, some resolve_failed)
bury env path reason index (some rest) o disk =
    let destination = o.dead_letter_dir <> ("/" <> rest) in
    if env.mkdir_fails
    then (o, disk, some dead_letter_directory)
    else if env.stat_fails
    then (o, disk, some inspect_dead_letter)
    else move_to env path reason index (dead_letter_name env disk destination) o disk

pub dead_letter :
    DeadLetterEnv → QueueItem → String → Outbox → Disk → Outbox × Disk × Option OutboxError
dead_letter env item reason o disk = elim (index_of o item.path) [
  | none ↦ (o, disk, none)
  | some index ↦ bury env item.path reason index (relative o.root item.path) o disk
]

unfoldable pub stats : Outbox → QueueStats
stats o = record {
  batches = length o.items;
  bytes = o.bytes;
  dead_letters = o.dead_letters;
  max_batches = o.max_batches;
  max_bytes = o.max_bytes;
}

unfoldable pub at_capacity : Outbox → Bool
unfolding stats
at_capacity o =
    let s = stats o in leb s.max_batches s.batches || not (ltb_ℤ s.bytes (pos s.max_bytes))
