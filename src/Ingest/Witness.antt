-- ===== src/Ingest/Witness.antt =====
-- The theorems on the ingest server, at one allowed request.
use dayz_behaviour.Prelude.{◌≤◌, ◌≡◌, ◌⊎◌, refl, ap, Bool, true, none, some, [], ◌∷◌, String}
use dayz_behaviour.Prelude.Int.{pos}
use dayz_behaviour.Prelude.Text.{◌<>◌}
use dayz_behaviour.Schema.{Batch}
use dayz_behaviour.Schema.Examples.{sample_lib, sample_batch, sample_batch-valid}
use dayz_behaviour.Storage.{put, final_path}
use dayz_behaviour.Storage.Examples.{raw_store, raw_env, empty_raw_disk, raw_put-ok}
use dayz_behaviour.Ingest.{
  Config, Counters, Request, decoded, bearer_credential, credential_of, by_server, authorised,
  answer_stored, store_batch, check_batch, read_body, count_bytes, count_time, handle_batch,
}
use dayz_behaviour.Ingest.Auth.{IsBacked, authorised-IsBacked}
use dayz_behaviour.Ingest.Counting.{IsAccounted, handle_batch-IsAccounted}
use dayz_behaviour.Ingest.Storing.{
  IsAdmitted, raw_batch_store, handle_batch-cases, handle_batch-durable,
}

abbrev sample_ingest : Config
sample_ingest = record {
  bearer_token = "";
  query_token = "";
  max_request_bytes = pos 1000;
  server_credentials = ("other", "x") ∷ ("srv", "secret") ∷ [];
  expected_server_id = "";
}

abbrev sample_request : Request
sample_request = record {
  authorization = "Bearer secret";
  token = "";
  claimed_server_id = "srv";
  body = decoded sample_batch;
  bytes = 100;
  microseconds = 5;
  storage_microseconds = 3;
}

abbrev no_counts : Counters
no_counts = record {
  requests = 0;
  accepted = 0;
  duplicates = 0;
  rejected = 0;
  storage_failures = 0;
  auth_failures = 0;
  decode_failures = 0;
  validation_failures = 0;
  bytes_received = 0;
  request_microseconds = 0;
  storage_microseconds = 0;
  spool_files_imported = 0;
  spool_batches_imported = 0;
}

sample_request-allowed : (authorised sample_ingest "Bearer secret" "" "srv") ≡ ("srv", true)
unfolding authorised by_server bearer_credential credential_of
sample_request-allowed = refl

sample_request-202 :
    (handle_batch sample_lib sample_ingest
      (raw_batch_store raw_env raw_store)
      sample_request
      no_counts
      empty_raw_disk).2.status
    ≡ 202
unfolding handle_batch count_time count_bytes read_body check_batch store_batch answer_stored
    authorised by_server bearer_credential credential_of
sample_request-202 = rw (sample_batch-valid, check_batch, raw_put-ok) refl

authorised-IsBacked_example :
    IsBacked sample_ingest "Bearer secret" "" "srv"
      (authorised sample_ingest "Bearer secret" "" "srv").0
authorised-IsBacked_example =
    authorised-IsBacked sample_ingest "Bearer secret" "" "srv"
      (ap (λ (r : String × Bool). r.1) sample_request-allowed)

handle_batch-IsAccounted_example :
    IsAccounted
      (handle_batch sample_lib sample_ingest
        (raw_batch_store raw_env raw_store)
        sample_request
        no_counts
        empty_raw_disk).0
handle_batch-IsAccounted_example =
    handle_batch-IsAccounted sample_lib sample_ingest (raw_batch_store raw_env raw_store)
      sample_request no_counts empty_raw_disk (record { total = refl })

handle_batch-cases_example :
    let o =
      handle_batch sample_lib sample_ingest
        (raw_batch_store raw_env raw_store)
        sample_request
        no_counts
        empty_raw_disk in
    ((o.1 ≡ empty_raw_disk) × (400 ≤ o.2.status))
    ⊎ ((batch : Batch) × IsAdmitted sample_lib sample_ingest sample_request batch
        × (o.1 ≡ (put raw_env raw_store batch empty_raw_disk).0)
        × (o.2.status ≡ 202 → (put raw_env raw_store batch empty_raw_disk).1 ≡ none))
handle_batch-cases_example =
    handle_batch-cases sample_lib sample_ingest (raw_batch_store raw_env raw_store) sample_request
      no_counts empty_raw_disk

handle_batch-durable_example :
    let o =
      handle_batch sample_lib sample_ingest
        (raw_batch_store raw_env raw_store)
        sample_request
        no_counts
        empty_raw_disk in
    (batch : Batch) × (text : String) × IsAdmitted sample_lib sample_ingest sample_request batch
    × (raw_env.marshal batch ≡ some text)
    × (o.1 (final_path raw_store batch) ≡ some (text <> "\n"))
handle_batch-durable_example =
    handle_batch-durable sample_lib sample_ingest raw_env raw_store sample_request no_counts
      empty_raw_disk sample_request-202
