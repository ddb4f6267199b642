-- ===== src/Privacy/Scrub.antt =====
-- internal/privacy/raw.go: ScrubRaw and replaceFile.
pub mod Files
pub mod Batches
pub mod Clean
pub mod Examples
mod Witness
use dayz_behaviour.Prelude.{
  ℕ, ◌+◌, ◌==◌, Bool, true, false, ◌||◌, not, Option, none, some, List, [], ◌∷◌, ◌++◌, String,
  if◌then◌else◌,
}
use dayz_behaviour.Prelude.Text.{is_blank, ◌<>◌}
use dayz_behaviour.Prelude.Extension.{has_extension}
use dayz_behaviour.Disk.{Disk, write_file, remove_file, rename_file}
use dayz_behaviour.Schema.{Batch, Event}
use dayz_behaviour.Privacy.{
  ScrubLib, ScrubStats, ScrubError, BatchRef, arguments_required, walk_failed, read_failed,
  decode_failed, remove_failed, encode_failed, replace_failed, kept_events, removed_events,
}

-- which calls of the system fail for one file, the name of the temporary file, and what a failing
-- Write leaves in it
pub record FileFaults : Type 0 where
  pub read : Bool
  pub remove : Bool
  pub create : Bool
  pub write : Bool
  pub clear_backup : Bool
  pub back_up : Bool
  pub commit : Bool
  pub restore : Bool
  pub drop_backup : Bool
  pub cleanup : Bool
  pub temp_path : String
  pub partial : String

-- what WalkDir hands to the callback: an error, or a file
pub data Walked : Type 0 where
  unreadable : Walked
  file : String → FileFaults → Walked

pub record ScrubState : Type 0 where
  pub stats : ScrubStats
  pub disk : Disk

abbrev pub backup_of : String → String
backup_of path = path <> ".privacy-backup"

-- the deferred removal of the temporary file
discard : FileFaults → Disk → Disk
discard f disk = if f.cleanup then disk else remove_file disk f.temp_path

-- the second Rename, and the one that undoes the first
commit_file : FileFaults → String → Disk → Disk × Bool
unfolding discard
commit_file f path moved =
    let committed = rename_file moved f.temp_path path in
    if f.commit
    then (discard f (if f.restore then moved else rename_file moved (backup_of path) path), false)
    else if f.drop_backup
    then (committed, false)
    else (remove_file committed (backup_of path), true)

-- the disk, and whether the file was replaced; the file is there, since it was read
pub replace_file : FileFaults → String → String → Disk → Disk × Bool
unfolding discard commit_file
replace_file f path content disk =
    let written = write_file disk f.temp_path content in
    let cleared = if f.clear_backup then written else remove_file written (backup_of path) in
    if f.create
    then (disk, false)
    else if f.write
    then (discard f (write_file disk f.temp_path f.partial), false)
    else if f.back_up
    then (discard f cleared, false)
    else commit_file f path (rename_file cleared path (backup_of path))

count_file : ScrubStats → ScrubStats
count_file s = record s { files_scanned = s.files_scanned + 1 }

count_batch : ℕ → Batch → ScrubStats → ScrubStats
count_batch removed b s = record s {
  events_removed = s.events_removed + removed;
  affected_batches =
      s.affected_batches
      ++ record {
        server_id = b.server_id;
        server_session_id = b.server_session_id;
        batch_sequence = b.batch_sequence;
      }
        ∷ [];
}

abbrev pub Step : Type 0
Step = ScrubState × Option ScrubError

delete_batch : FileFaults → String → ScrubStats → Disk → Step
delete_batch f path stats disk =
    if f.remove then (record { stats = stats; disk = disk }, some remove_failed) else (
      record {
        stats = record stats { files_deleted = stats.files_deleted + 1 };
        disk = remove_file disk path;
      },
      none,
    )

after_replace : ScrubStats → Disk × Bool → Step
after_replace stats (disk, false) = (record { stats = stats; disk = disk }, some replace_failed)
after_replace stats (disk, true) = (
  record { stats = record stats { files_rewritten = stats.files_rewritten + 1 }; disk = disk },
  none,
)

module _ (lib : ScrubLib) where
  rewrite_batch : FileFaults → String → Batch → ScrubStats → Disk → Step
  unfolding after_replace
  rewrite_batch f path b stats disk = elim (lib.encode_batch b) [
    | none ↦ (record { stats = stats; disk = disk }, some encode_failed)
    | some text ↦ after_replace stats (replace_file f path (text <> "\n") disk)
  ]

  write_kept : FileFaults → String → Batch → List Event → ScrubStats → Disk → Step
  unfolding delete_batch rewrite_batch
  write_kept f path b [] stats disk = delete_batch f path stats disk
  write_kept f path b (e ∷ es) stats disk =
      rewrite_batch f path (record b { events = e ∷ es }) stats disk

  module _ (identity : String) (execute : Bool) where
    -- what is done with a batch that was read
    scrub_batch : FileFaults → String → Batch → ScrubStats → Disk → Step
    unfolding count_batch write_kept
    scrub_batch f path b stats disk =
        let removed = removed_events lib b.events identity in
        let counted = count_batch removed b stats in
        if removed == 0
        then (record { stats = stats; disk = disk }, none)
        else if not execute
        then (record { stats = counted; disk = disk }, none)
        else write_kept f path b (kept_events lib b.events identity) counted disk

    pub scrub_content : FileFaults → String → Option String → ScrubStats → Disk → Step
    unfolding scrub_batch
    scrub_content f path none stats disk = (record { stats = stats; disk = disk }, some read_failed)
    scrub_content f path (some content) stats disk = elim (lib.decode_batch content) [
      | none ↦ (record { stats = stats; disk = disk }, some decode_failed)
      | some b ↦ scrub_batch f path b stats disk
    ]

    -- the callback
    pub scrub_walked : Walked → ScrubState → Step
    unfolding scrub_content count_file
    scrub_walked unreadable s = (s, some walk_failed)
    scrub_walked (file path f) s =
        if not (has_extension ".json" path)
        then (s, none)
        else scrub_content f path (if f.read then none else s.disk path) (count_file s.stats) s.disk

    pub scrub_all : List Walked → ScrubState → Step
    unfolding scrub_walked
    scrub_all [] s = (s, none)
    scrub_all (w ∷ ws) s =
        let r = scrub_walked w s in
        let rest = scrub_all ws r.0 in elim r.1 [ some e ↦ r | none ↦ rest ]

  pub scrub_raw : String → String → Bool → List Walked → Disk → Step
  unfolding scrub_all
  scrub_raw root identity execute walked disk =
      let start : ScrubState = record {
        stats = record {
          files_scanned = 0;
          files_rewritten = 0;
          files_deleted = 0;
          events_removed = 0;
          affected_batches = [];
        };
        disk = disk;
      } in
      if is_blank root || is_blank identity
      then (start, some arguments_required)
      else scrub_all identity execute walked start
