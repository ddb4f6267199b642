-- ===== src/Disk.antt =====
-- The file system as the Go code sees it: the content of each file, and the files that each call
-- of `os` may create, replace or remove. Directories are not represented: a failing MkdirAll is one
-- of the faults. Also internal/agent/outbox.go's atomicWrite.
pub mod Atomic
mod Witness
use dayz_behaviour.Prelude.{
  Bool, true, false, Option, none, some, String, ◌≡◌, arith, if◌then◌else◌,
}
use dayz_behaviour.Prelude.Text.{str_eq, eq_iff}

abbrev pub Disk : Type 0
Disk = String → Option String

abbrev pub write_file : Disk → String → String → Disk
write_file disk path content q = if str_eq path q then some content else disk q

abbrev pub remove_file : Disk → String → Disk
remove_file disk path q = if str_eq path q then none else disk q

-- os.Rename replaces the destination
abbrev pub rename_file : Disk → String → String → Disk
rename_file disk from to q =
    if str_eq to q then disk from else if str_eq from q then none else disk q

-- which calls of the system fail during one atomicWrite
pub record WriteFaults : Type 0 where
  pub mkdir : Bool
  pub create_temp : Bool
  pub chmod : Bool
  pub write : Bool
  pub sync : Bool
  pub close : Bool
  pub rename : Bool
  pub open_directory : Bool
  pub sync_directory : Bool
  -- the deferred os.Remove of the temporary file, whose error is dropped
  pub cleanup : Bool

abbrev pub no_faults : WriteFaults
no_faults = record {
  mkdir = false;
  create_temp = false;
  chmod = false;
  write = false;
  sync = false;
  close = false;
  rename = false;
  open_directory = false;
  sync_directory = false;
  cleanup = false;
}

pub data WriteError : Type 0 where
  create_directory create_temporary set_permissions write_data sync_data close_file commit_rename :
      WriteError
  open_batch_directory sync_batch_directory : WriteError

-- what the system decides in one atomicWrite: its platform, the name of the temporary file, the
-- part of the data that reaches the file if Write fails, and the faults
pub record WriteEnv : Type 0 where
  pub is_windows : Bool
  pub temp_path : String
  pub partial : String
  pub faults : WriteFaults

-- the deferred clean-up of atomicWrite
discard : WriteEnv → Disk → Disk
discard env disk = if env.faults.cleanup then disk else remove_file disk env.temp_path

-- the directory sync of atomicWrite, after the rename
sync_parent : WriteEnv → Option WriteError
sync_parent env =
    if env.is_windows
    then none
    else if env.faults.open_directory
    then some open_batch_directory
    else if env.faults.sync_directory
    then some sync_batch_directory
    else none

unfoldable pub atomic_write : WriteEnv → String → String → Disk → Disk × Option WriteError
unfolding discard sync_parent
atomic_write env path content disk =
    let opened = write_file disk env.temp_path "" in
    let partly = write_file disk env.temp_path env.partial in
    let written = write_file disk env.temp_path content in
    if env.faults.mkdir
    then (disk, some create_directory)
    else if env.faults.create_temp
    then (disk, some create_temporary)
    else if env.faults.chmod
    then (discard env opened, some set_permissions)
    else if env.faults.write
    then (discard env partly, some write_data)
    else if env.faults.sync
    then (discard env written, some sync_data)
    else if env.faults.close
    then (discard env written, some close_file)
    else if env.faults.rename
    then (discard env written, some commit_rename)
    else (rename_file written env.temp_path path, sync_parent env)
