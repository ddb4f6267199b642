-- ===== src/Ingest/Storing.antt =====
-- internal/ingest/server.go: handleBatch and its store.
use dayz_behaviour.Prelude.{
  ◌≤◌, ◌≡◌, ◌⊎◌, refl, ap, ◌∙◌, true, false, Option, none, some, String, arith, inl, inr,
  Bool-cases, Option-cases, not, ◌&&◌,
}
use dayz_behaviour.Prelude.Text.{str_eq, eq_iff, ◌<>◌}
use dayz_behaviour.Disk.{Disk}
use dayz_behaviour.Json.{JsonLib}
use dayz_behaviour.Schema.{Batch, validate}
use dayz_behaviour.Storage.{
  StoreError, already_stored, batch_conflict, capacity_exceeded, marshal_failed,
  create_directory_failed, stat_failed, read_failed, root_required, create_root_failed,
  write_failed, RawStore, StoreEnv, final_path, put,
}
use dayz_behaviour.Storage.Immutable.{put-stores, put-encodes}
use dayz_behaviour.Ingest.{
  BatchStore, Config, Counters, Request, Body, too_large, not_json, trailing_data, decoded, Outcome,
  add_counter, answer_stored, store_batch, check_batch, read_body, handle_batch, authorised,
  undecoded, count_bytes, count_time, write_error,
}

-- The request is allowed and its body is this valid batch, of the server that the receiver expects and
-- that the credential is bound to.
pub record IsAdmitted (lib : JsonLib) (config : Config) (rq : Request) (batch : Batch)
    : Type 0 where
  pub allowed : (authorised config rq.authorization rq.token rq.claimed_server_id).1 ≡ true
  pub body : rq.body ≡ decoded batch
  pub valid : validate lib batch ≡ none
  pub expected : (config.expected_server_id ≡ "") ⊎ (batch.server_id ≡ config.expected_server_id)
  pub bound :
      ((authorised config rq.authorization rq.token rq.claimed_server_id).0 ≡ "")
      ⊎ (batch.server_id ≡ (authorised config rq.authorization rq.token rq.claimed_server_id).0)

-- `wanted != "" && actual != wanted` is false
matches :
    (actual wanted : String)
    → (not (str_eq wanted "") && not (str_eq actual wanted)) ≡ false
    → (wanted ≡ "") ⊎ (actual ≡ wanted)
matches actual wanted h = ground (arith, eq_iff wanted "", eq_iff actual wanted)

answer_stored-202 :
    (batch : Batch) (e : Option StoreError) (c : Counters)
    → (answer_stored batch e c).1.status ≡ 202
    → e ≡ none
unfolding answer_stored write_error
answer_stored-202 batch none c h = refl
answer_stored-202 batch (some already_stored) c h = absurd (omega (arith, h))
answer_stored-202 batch (some batch_conflict) c h = absurd (omega (arith, h))
answer_stored-202 batch (some capacity_exceeded) c h = absurd (omega (arith, h))
answer_stored-202 batch (some marshal_failed) c h = absurd (omega (arith, h))
answer_stored-202 batch (some create_directory_failed) c h = absurd (omega (arith, h))
answer_stored-202 batch (some stat_failed) c h = absurd (omega (arith, h))
answer_stored-202 batch (some read_failed) c h = absurd (omega (arith, h))
answer_stored-202 batch (some root_required) c h = absurd (omega (arith, h))
answer_stored-202 batch (some create_root_failed) c h = absurd (omega (arith, h))
answer_stored-202 batch (some (write_failed w)) c h = absurd (omega (arith, h))

module _ {S : Type 0} (lib : JsonLib) (config : Config) (store : BatchStore S) (rq : Request) where
  -- an outcome that leaves the store alone and is no success
  record IsRefused (s : S) (o : Outcome S) : Type 0 where
    untouched : o.1 ≡ s
    client_error : 400 ≤ o.2.status

  -- an outcome of one call of the store with `batch`
  record IsStored (batch : Batch) (s : S) (o : Outcome S) : Type 0 where
    stored : o.1 ≡ (store.put batch s).0
    answered : o.2.status ≡ 202 → (store.put batch s).1 ≡ none

  -- the batch that a body holds, checked against the two servers
  record IsChecked (bound : String) (body : Body) (batch : Batch) : Type 0 where
    held : body ≡ decoded batch
    valid : validate lib batch ≡ none
    expected : (config.expected_server_id ≡ "") ⊎ (batch.server_id ≡ config.expected_server_id)
    matching : (bound ≡ "") ⊎ (batch.server_id ≡ bound)

  check_batch-cases :
      (bound : String) (batch : Batch) (c : Counters) (s : S)
      → let o = check_batch lib config store rq bound batch c s in
        IsRefused s o ⊎ (IsChecked bound (decoded batch) batch × IsStored batch s o)
  unfolding check_batch write_error store_batch
  check_batch-cases bound batch c s = elim (Option-cases (validate lib batch)) [
    | inr (e, v) ↦
        inl (rw (v, check_batch) (record { untouched = refl; client_error = omega arith }))
    | inl v ↦
        elim (Bool-cases (
          not (str_eq config.expected_server_id "")
          && not (str_eq batch.server_id config.expected_server_id))) [
            | inl x ↦
                inl
                  (rw (v, check_batch, x) (record { untouched = refl; client_error = omega arith }))
            | inr x ↦
                elim (Bool-cases (not (str_eq bound "") && not (str_eq batch.server_id bound))) [
                  | inl y ↦ inl (
                      rw (v, check_batch, x, y)
                        (record { untouched = refl; client_error = omega arith }))
                  | inr y ↦ inr (
                    record {
                      held = refl;
                      valid = v;
                      expected = matches batch.server_id config.expected_server_id x;
                      matching = matches batch.server_id bound y;
                    },
                    rw (v, check_batch, x, y)
                        (record {
                          stored = refl;
                          answered = λ h.
                              answer_stored-202 batch (store.put batch s).1
                                (record c {
                                  storage_microseconds =
                                      add_counter c.storage_microseconds rq.storage_microseconds;
                                })
                                h;
                        }),
                  )
                ]
          ]
  ]

  read_body-cases :
      (bound : String) (body : Body) (c : Counters) (s : S)
      → let o = read_body lib config store rq bound body c s in
        IsRefused s o ⊎ ((batch : Batch) × IsChecked bound body batch × IsStored batch s o)
  unfolding read_body undecoded write_error
  read_body-cases bound too_large c s =
      inl (record { untouched = refl; client_error = omega arith })
  read_body-cases bound not_json c s = inl (record { untouched = refl; client_error = omega arith })
  read_body-cases bound trailing_data c s =
      inl (record { untouched = refl; client_error = omega arith })
  read_body-cases bound (decoded batch) c s = elim (check_batch-cases bound batch c s) [
    | inl r ↦ inl r
    | inr (k, st) ↦ inr (batch, k, st)
  ]

  -- A request either leaves the store as it is and is answered with a status of 400 or more, or
  -- is admitted and makes one call of the store with its batch; then 202 means that this call
  -- returned no error.
  pub handle_batch-cases :
      (c : Counters) (s : S)
      → let o = handle_batch lib config store rq c s in
        ((o.1 ≡ s) × (400 ≤ o.2.status))
        ⊎ ((batch : Batch) × IsAdmitted lib config rq batch
            × (o.1 ≡ (store.put batch s).0)
            × (o.2.status ≡ 202 → (store.put batch s).1 ≡ none))
  unfolding handle_batch count_bytes count_time write_error
  handle_batch-cases c s =
      let counted : Counters = record c { requests = add_counter c.requests 1 } in
      let auth = authorised config rq.authorization rq.token rq.claimed_server_id in
      elim (Bool-cases auth.1) [
        | inr e ↦ inl (rw (e) (refl, omega arith))
        | inl e ↦ elim (read_body-cases auth.0 rq.body counted s) [
          | inl r ↦ inl (rw (e) (r.untouched, r.client_error))
          | inr (batch, k, st) ↦ inr (
            batch,
            record {
              allowed = e;
              body = k.held;
              valid = k.valid;
              expected = k.expected;
              bound = k.matching;
            },
            rw (e) st.stored,
            rw (e) st.answered,
          )
        ]
      ]

-- storage.RawStore as the server's store; `env` is what its one call meets
abbrev pub raw_batch_store : StoreEnv → RawStore → BatchStore Disk
raw_batch_store env raw = record { put = λ batch disk. put env raw batch disk }

-- With the raw store behind the server, an answer of 202 means that the request was allowed, that
-- its body decoded to a valid batch of the expected and of the bound server, and that the file of
-- this batch now holds the batch's encoding followed by a newline.
pub handle_batch-durable :
    (lib : JsonLib) (config : Config) (env : StoreEnv) (raw : RawStore) (rq : Request)
    (c : Counters) (disk : Disk)
    → let o = handle_batch lib config (raw_batch_store env raw) rq c disk in
      o.2.status ≡ 202
      → (batch : Batch) × (text : String) × IsAdmitted lib config rq batch
        × (env.marshal batch ≡ some text)
        × (o.1 (final_path raw batch) ≡ some (text <> "\n"))
handle_batch-durable lib config env raw rq c disk h =
    elim (handle_batch-cases lib config (raw_batch_store env raw) rq c disk) [
      | inl (same, bad) ↦ absurd (omega (arith, h, bad))
      | inr (batch, ok, stored, fine) ↦
          let (text, coded) = put-encodes env raw batch disk (fine h) in
          (
            batch,
            text,
            ok,
            coded,
            ap (λ (d : Disk). d (final_path raw batch)) stored
                ∙ put-stores env raw batch disk text coded (fine h),
          )
    ]
