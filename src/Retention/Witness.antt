-- ===== src/Retention/Witness.antt =====
-- The theorems on the deletion of expired files, at a walk over two files.
use dayz_behaviour.Prelude.{◌≡◌, ◌⊎◌, refl, true, false, none, some, List, [], ◌∷◌, String}
use dayz_behaviour.Prelude.Int.{pos}
use dayz_behaviour.Prelude.Text.{trim}
use dayz_behaviour.Prelude.Extension.{has_extension}
use dayz_behaviour.Disk.{Disk}
use dayz_behaviour.Retention.{Visit, prune_raw, walk, visit_file, is_json_path}
use dayz_behaviour.Retention.Pruning.{
  IsExpiredIn, count_expired_in, prune_raw-takes, prune_raw-removes,
}

abbrev old_file : Visit
old_file = record {
  path = "/raw/a.JSON";
  is_dir = false;
  mod_time = pos 1;
  size = 10;
  walk_fails = false;
  info_fails = false;
  remove_fails = false;
}

abbrev visits : List Visit
visits = old_file ∷ record old_file { path = "/raw/b.json"; mod_time = pos 9 } ∷ []

abbrev full_disk : Disk
full_disk path = some "{}"

prune-ok : (prune_raw "/raw" (pos 5) true visits full_disk).2 ≡ none
unfolding prune_raw walk visit_file is_json_path has_extension trim
prune-ok = refl

prune-deletes : (prune_raw "/raw" (pos 5) true visits full_disk).0.files_deleted ≡ 1
unfolding prune_raw walk visit_file is_json_path has_extension trim
prune-deletes = refl

prune_raw-takes_example :
    ((prune_raw "/raw" (pos 5) true visits full_disk).1 "/raw/a.JSON" ≡ full_disk "/raw/a.JSON")
    ⊎ (IsExpiredIn (pos 5) "/raw/a.JSON" visits × (true ≡ true))
prune_raw-takes_example = prune_raw-takes (pos 5) true "/raw" visits full_disk "/raw/a.JSON"

prune_raw-removes_example :
    let (r, disk', err) = prune_raw "/raw" (pos 5) true visits full_disk in
    ((q : String) → IsExpiredIn (pos 5) q visits → disk' q ≡ none)
    × (r.files_expired ≡ count_expired_in (pos 5) visits)
    × (r.files_deleted ≡ count_expired_in (pos 5) visits)
prune_raw-removes_example = prune_raw-removes (pos 5) true "/raw" visits full_disk refl prune-ok
