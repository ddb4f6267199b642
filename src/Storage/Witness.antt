-- ===== src/Storage/Witness.antt =====
-- The theorems on the store, at an empty one and at a stored batch.
use dayz_behaviour.Prelude.{◌≡◌, ◌≢◌, ap, arith, refl, some, String, if◌then◌else◌}
use dayz_behaviour.Prelude.Text.{str_eq, trim}
use dayz_behaviour.Disk.{write_file}
use dayz_behaviour.Schema.Examples.{sample_batch}
use dayz_behaviour.Storage.{put, already_stored, batch_conflict}
use dayz_behaviour.Storage.Immutable.{put-keeps, put-put_stored}
use dayz_behaviour.Storage.Examples.{raw_store, raw_env, empty_raw_disk, raw_put-ok}

temp-old : raw_env.write.temp_path ≢ "/raw/srv/s1/old.json"
temp-old p = ground (arith, ap (λ (s : String). str_eq s "/raw/srv/s1/old.json") p)

put-keeps_example :
    (put raw_env raw_store sample_batch (write_file empty_raw_disk "/raw/srv/s1/old.json" "[]")).0
      "/raw/srv/s1/old.json"
    ≡ some "[]"
put-keeps_example =
    put-keeps raw_env raw_store sample_batch (write_file empty_raw_disk "/raw/srv/s1/old.json" "[]")
      "/raw/srv/s1/old.json" "[]" temp-old refl

brackets-trim : trim "{}" ≡ "{}"
unfolding trim
brackets-trim = refl

put-put_stored_example :
    put raw_env raw_store sample_batch (put raw_env raw_store sample_batch empty_raw_disk).0 ≡ (
      (put raw_env raw_store sample_batch empty_raw_disk).0,
      some (if str_eq "{}" "{}" then already_stored else batch_conflict),
    )
put-put_stored_example =
    put-put_stored raw_env raw_env raw_store sample_batch empty_raw_disk "{}" "{}" refl refl
      brackets-trim refl refl refl raw_put-ok
