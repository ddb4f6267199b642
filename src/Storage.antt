-- ===== src/Storage.antt =====
-- internal/storage/raw.go: the store of accepted batches, one immutable file each. The lock serialises
-- Put, so that it is one step on the disk.
pub mod Immutable
pub mod Examples
mod Witness
use dayz_behaviour.Prelude.{
  Bool, true, false, Option, none, some, String, ◌⊎◌, inl, inr, if◌then◌else◌,
}
use dayz_behaviour.Prelude.Text.{str_eq, sanitise, pad20, ◌<>◌, trim}
use dayz_behaviour.Disk.{Disk, WriteEnv, WriteError, commit_rename, write_file, atomic_write}
use dayz_behaviour.Schema.{Batch}

-- capacity_exceeded is declared beside the others, for stores that have a limit
pub data StoreError : Type 0 where
  already_stored batch_conflict capacity_exceeded : StoreError
  marshal_failed create_directory_failed stat_failed read_failed root_required create_root_failed :
      StoreError
  write_failed : WriteError → StoreError

pub record RawStore : Type 0 where
  pub root : String

pub new_raw_store : Bool → String → RawStore ⊎ StoreError
new_raw_store mkdir_fails root =
    if str_eq root ""
    then inr root_required
    else if mkdir_fails
    then inr create_root_failed
    else inl (record { root = root })

-- What one Put meets: the encoder's answer, the faults of MkdirAll, Stat and ReadFile, the calls that
-- write, and the file that another process may have put at the path when the rename fails.
pub record StoreEnv : Type 0 where
  pub marshal : Batch → Option String
  pub mkdir_fails : Bool
  pub stat_fails : Bool
  pub read_fails : Bool
  pub write : WriteEnv
  pub rival : Option String
  pub rival_read_fails : Bool

pub final_path : RawStore → Batch → String
final_path s batch =
    s.root
    <> ("/"
        <> (sanitise batch.server_id
            <> ("/"
                <> (sanitise batch.server_session_id
                    <> ("/" <> (pad20 batch.batch_sequence <> ".json"))))))

-- the file that is there already against the encoding
against : String → String → StoreError
against existing text = if str_eq (trim existing) text then already_stored else batch_conflict

-- after a rename that failed
after_rename : StoreEnv → String → String → Disk → Disk × Option StoreError
unfolding against
after_rename env path text disk = elim env.rival [
  | none ↦ (disk, some (write_failed commit_rename))
  | some existing ↦ (
    write_file disk path existing,
    some (if env.rival_read_fails then batch_conflict else against existing text),
  )
]

is_rename : WriteError → Bool
is_rename commit_rename = true
is_rename _ = false

-- the return of Put after the calls that write
finish_store : StoreEnv → String → String → Disk × Option WriteError → Disk × Option StoreError
unfolding after_rename is_rename
finish_store env path text (disk, none) = (disk, none)
finish_store env path text (disk, some e) =
    if is_rename e then after_rename env path text disk else (disk, some (write_failed e))

-- The directory is there by then. The two writes, of the encoding and of the newline, are one here: a
-- failure of either leaves a part.
store_text : StoreEnv → String → String → Disk → Disk × Option StoreError
unfolding against finish_store
store_text env path text disk = elim (disk path) [
  | some existing ↦ (disk, some (if env.read_fails then read_failed else against existing text))
  | none ↦ finish_store env path text (atomic_write env.write path (text <> "\n") disk)
]

pub put : StoreEnv → RawStore → Batch → Disk → Disk × Option StoreError
unfolding store_text
put env s batch disk = elim (env.marshal batch) [
  | none ↦ (disk, some marshal_failed)
  | some text ↦
      if env.mkdir_fails
      then (disk, some create_directory_failed)
      else if env.stat_fails
      then (disk, some stat_failed)
      else store_text env (final_path s batch) text disk
]
