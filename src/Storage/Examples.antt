-- ===== src/Storage/Examples.antt =====
-- An empty store, and what one Put on it meets.
use dayz_behaviour.Prelude.{◌≡◌, refl, false, none, some}
use dayz_behaviour.Disk.{Disk, no_faults, atomic_write}
use dayz_behaviour.Schema.Examples.{sample_batch}
use dayz_behaviour.Storage.{RawStore, StoreEnv, final_path, finish_store, store_text, put}

abbrev pub raw_store : RawStore
raw_store = record { root = "/raw" }

abbrev pub raw_env : StoreEnv
raw_env = record {
  marshal = λ b. some "{}";
  mkdir_fails = false;
  stat_fails = false;
  read_fails = false;
  write = record {
    is_windows = false;
    temp_path = "/raw/srv/s1/.batch-1.tmp";
    partial = "";
    faults = no_faults;
  };
  rival = none;
  rival_read_fails = false;
}

abbrev pub empty_raw_disk : Disk
empty_raw_disk path = none

pub raw_put-ok : (put raw_env raw_store sample_batch empty_raw_disk).1 ≡ none
unfolding put store_text finish_store final_path atomic_write
raw_put-ok = refl
