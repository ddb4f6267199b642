-- ===== src/Retention.antt =====
-- internal/retention/raw.go: the deletion of expired batch files. The walk is the list of what WalkDir
-- visits, in its order.
pub mod Pruning
mod Witness
use Prim.Native.Char.{Char, code}
use Prim.Native.String.{[] as nil_text, ◌∷◌ as ◌∷ₛ◌, slice}
use dayz_behaviour.Prelude.{
  ℕ, ◌+◌, ◌-◌, Bool, true, false, ◌&&◌, ◌||◌, not, Option, none, some, List, [], ◌∷◌, String, ltb,
  leb, ◌==◌, if◌then◌else◌,
}
use dayz_behaviour.Prelude.Int.{ℤ, pos, ltb_ℤ}
use dayz_behaviour.Prelude.Words.{add64}
use dayz_behaviour.Prelude.Extension.{has_extension}
use dayz_behaviour.Prelude.Text.{str_eq, len, is_blank}
use dayz_behaviour.Disk.{Disk, remove_file}

pub record RawStats : Type 0 where
  pub files_scanned : ℕ
  pub files_expired : ℕ
  pub files_deleted : ℕ
  pub bytes_expired : ℤ

-- one visit of WalkDir: what it finds, and which call fails there
pub record Visit : Type 0 where
  pub path : String
  pub is_dir : Bool
  pub mod_time : ℤ
  pub size : ℕ
  pub walk_fails : Bool
  pub info_fails : Bool
  pub remove_fails : Bool

pub data PruneError : Type 0 where
  raw_root_required walk_failed info_failed remove_failed : PruneError

pub is_json_path : String → Bool
unfolding has_extension
is_json_path path = has_extension ".json" path

-- an entry that the walk counts as a raw file
abbrev pub is_raw_file : Visit → Bool
is_raw_file v = not v.is_dir && is_json_path v.path

count_file : RawStats → RawStats
count_file r = record r { files_scanned = r.files_scanned + 1 }

count_expired : Visit → RawStats → RawStats
count_expired v r = record r {
  files_expired = r.files_expired + 1;
  bytes_expired = add64 r.bytes_expired (pos v.size);
}

count_deleted : RawStats → RawStats
count_deleted r = record r { files_deleted = r.files_deleted + 1 }

-- what one visit adds to the statistics and takes from the disk, and its error
pub visit_file : ℤ → Bool → Visit → RawStats → Disk → RawStats × Disk × Option PruneError
unfolding count_file count_expired count_deleted
visit_file before execute v r disk =
    let expired = count_expired v (count_file r) in
    if v.walk_fails
    then (r, disk, some walk_failed)
    else if not (is_raw_file v)
    then (r, disk, none)
    else if v.info_fails
    then (count_file r, disk, some info_failed)
    else if not (ltb_ℤ v.mod_time before)
    then (count_file r, disk, none)
    else if not execute
    then (expired, disk, none)
    else if v.remove_fails
    then (expired, disk, some remove_failed)
    else (count_deleted expired, remove_file disk v.path, none)

-- WalkDir stops at the first error
pub walk : ℤ → Bool → List Visit → RawStats → Disk → RawStats × Disk × Option PruneError
unfolding visit_file
walk before execute [] r disk = (r, disk, none)
walk before execute (v ∷ vs) r disk =
    let (r', disk', err) = visit_file before execute v r disk in
    let rest = walk before execute vs r' disk' in
    elim err [ some e ↦ (r', disk', some e) | none ↦ rest ]

abbrev pub no_stats : RawStats
no_stats = record { files_scanned = 0; files_expired = 0; files_deleted = 0; bytes_expired = pos 0 }

pub prune_raw : String → ℤ → Bool → List Visit → Disk → RawStats × Disk × Option PruneError
unfolding walk
prune_raw root before execute visits disk =
    if is_blank root
    then (no_stats, disk, some raw_root_required)
    else walk before execute visits no_stats disk
