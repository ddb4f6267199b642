-- ===== src/Disk/Witness.antt =====
-- The theorem on the atomic write, at a replaced file.
use dayz_behaviour.Prelude.{◌≡◌, ◌≢◌, ◌⊎◌, ap, arith, some, String, true, false}
use dayz_behaviour.Prelude.Text.{str_eq}
use dayz_behaviour.Disk.{Disk, WriteEnv, no_faults, atomic_write}
use dayz_behaviour.Disk.Atomic.{atomic_write_lem}

abbrev rename_fails : WriteEnv
rename_fails = record {
  is_windows = false;
  temp_path = "/q/t.tmp";
  partial = "";
  faults = record no_faults { rename = true };
}

abbrev old_disk : Disk
old_disk path = some "old"

temp-other : rename_fails.temp_path ≢ "/q/a"
temp-other p = ground (arith, ap (λ (s : String). str_eq s "/q/a") p)

atomic_write_lem_example :
    ((atomic_write rename_fails "/q/a" "new" old_disk).0 "/q/a" ≡ old_disk "/q/a")
    ⊎ ((atomic_write rename_fails "/q/a" "new" old_disk).0 "/q/a" ≡ some "new")
atomic_write_lem_example = atomic_write_lem rename_fails "/q/a" "new" old_disk temp-other
