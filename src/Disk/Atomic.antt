-- ===== src/Disk/Atomic.antt =====
-- internal/agent/outbox.go: the disk after atomicWrite.
use dayz_behaviour.Prelude.{none, some, String, ◌≡◌, ◌≢◌, ◌⊎◌, arith}
use dayz_behaviour.Prelude.Text.{eq_iff}
use dayz_behaviour.Disk.{Disk, WriteEnv, atomic_write, sync_batch_directory}

module _ (env : WriteEnv) (path content : String) (disk : Disk) where
  -- After atomicWrite, whatever fails, the file at `path` holds what it held before or the whole
  -- new content, if the temporary file has another name.
  pub atomic_write_lem :
      env.temp_path ≢ path
      → ((atomic_write env path content disk).0 path ≡ disk path)
        ⊎ ((atomic_write env path content disk).0 path ≡ some content)
  unfolding atomic_write
  atomic_write_lem ne =
      ground
        (arith, eq_iff env.temp_path path, eq_iff path path, eq_iff env.temp_path env.temp_path)

  pub atomic_write-frame :
      (q : String)
      → path ≢ q
      → env.temp_path ≢ q
      → (atomic_write env path content disk).0 q ≡ disk q
  unfolding atomic_write
  atomic_write-frame q np nt = ground (arith, eq_iff env.temp_path q, eq_iff path q)

  pub atomic_write-ok :
      (atomic_write env path content disk).1 ≡ none
      → (atomic_write env path content disk).0 path ≡ some content
  unfolding atomic_write
  atomic_write-ok ok =
      ground
        (arith, eq_iff env.temp_path path, eq_iff path path, eq_iff env.temp_path env.temp_path)

  -- A failed sync of the directory comes after the rename.
  pub atomic_write-unsynced :
      (atomic_write env path content disk).1 ≡ some sync_batch_directory
      → (atomic_write env path content disk).0 path ≡ some content
  unfolding atomic_write
  atomic_write-unsynced failed =
      ground
        (arith, eq_iff env.temp_path path, eq_iff path path, eq_iff env.temp_path env.temp_path)
