-- ===== src/Ingest/Counting.antt =====
-- internal/ingest/server.go: the counters of the requests and of their outcomes.
use dayz_behaviour.Prelude.{
  ℕ, ◌+◌, ◌%◌, ◌^◌, ◌≡◌, refl, Option, none, some, String, arith, inl, inr, Bool-cases,
  Option-cases, not, ◌&&◌,
}
use dayz_behaviour.Prelude.Text.{str_eq}
use dayz_behaviour.Json.{JsonLib}
use dayz_behaviour.Schema.{Batch, validate}
use dayz_behaviour.Storage.{
  StoreError, already_stored, batch_conflict, capacity_exceeded, marshal_failed,
  create_directory_failed, stat_failed, read_failed, root_required, create_root_failed,
  write_failed,
}
use dayz_behaviour.Ingest.{
  BatchStore, Config, Counters, Request, Body, too_large, not_json, trailing_data, decoded,
  add_counter, answer_stored, store_batch, check_batch, read_body, handle_batch, authorised,
  undecoded, count_bytes, count_time, reject,
}

-- the four outcomes of a request, added up
abbrev pub outcomes : Counters → ℕ
outcomes c = c.accepted + c.duplicates + c.rejected + c.storage_failures

-- The outcomes add up to the requests, as uint64.
pub record IsAccounted (c : Counters) : Type 0 where
  pub total : c.requests ≡ outcomes c % 2 ^ 64

-- one more outcome, and no more requests
record IsAnswer (c c' : Counters) : Type 0 where
  requests : c'.requests ≡ c.requests
  answered : outcomes c' % 2 ^ 64 ≡ (outcomes c + 1) % 2 ^ 64

answer_stored-IsAnswer :
    (batch : Batch) (e : Option StoreError) (c : Counters) → IsAnswer c (answer_stored batch e c).0
unfolding answer_stored reject add_counter
answer_stored-IsAnswer batch none c = record { requests = refl; answered = omega arith }
answer_stored-IsAnswer batch (some already_stored) c = record {
  requests = refl;
  answered = omega arith;
}
answer_stored-IsAnswer batch (some batch_conflict) c = record {
  requests = refl;
  answered = omega arith;
}
answer_stored-IsAnswer batch (some capacity_exceeded) c = record {
  requests = refl;
  answered = omega arith;
}
answer_stored-IsAnswer batch (some marshal_failed) c = record {
  requests = refl;
  answered = omega arith;
}
answer_stored-IsAnswer batch (some create_directory_failed) c = record {
  requests = refl;
  answered = omega arith;
}
answer_stored-IsAnswer batch (some stat_failed) c = record {
  requests = refl;
  answered = omega arith;
}
answer_stored-IsAnswer batch (some read_failed) c = record {
  requests = refl;
  answered = omega arith;
}
answer_stored-IsAnswer batch (some root_required) c = record {
  requests = refl;
  answered = omega arith;
}
answer_stored-IsAnswer batch (some create_root_failed) c = record {
  requests = refl;
  answered = omega arith;
}
answer_stored-IsAnswer batch (some (write_failed w)) c = record {
  requests = refl;
  answered = omega arith;
}

module _ {S : Type 0} (lib : JsonLib) (config : Config) (store : BatchStore S) (rq : Request) where
  store_batch-IsAnswer :
      (batch : Batch) (c : Counters) (s : S) → IsAnswer c (store_batch store rq batch c s).0
  unfolding store_batch
  store_batch-IsAnswer batch c s =
      let a = answer_stored-IsAnswer batch (store.put batch s).1 (record c {
        storage_microseconds = add_counter c.storage_microseconds rq.storage_microseconds;
      }) in
      record { requests = a.requests; answered = a.answered }

  check_batch-IsAnswer :
      (bound : String) (batch : Batch) (c : Counters) (s : S)
      → IsAnswer c (check_batch lib config store rq bound batch c s).0
  unfolding check_batch reject add_counter
  check_batch-IsAnswer bound batch c s = elim (Option-cases (validate lib batch)) [
    | inr (e, v) ↦ rw (v, check_batch) (record { requests = refl; answered = omega arith })
    | inl v ↦
        elim (Bool-cases (
          not (str_eq config.expected_server_id "")
          && not (str_eq batch.server_id config.expected_server_id))) [
            | inl x ↦ rw (v, check_batch, x) (record { requests = refl; answered = omega arith })
            | inr x ↦
                elim (Bool-cases (not (str_eq bound "") && not (str_eq batch.server_id bound))) [
                  | inl y ↦
                      rw (v, check_batch, x, y) (record { requests = refl; answered = omega arith })
                  | inr y ↦ rw (v, check_batch, x, y) (store_batch-IsAnswer batch c s)
                ]
          ]
  ]

  read_body-IsAnswer :
      (bound : String) (body : Body) (c : Counters) (s : S)
      → IsAnswer c (read_body lib config store rq bound body c s).0
  unfolding read_body undecoded reject add_counter
  read_body-IsAnswer bound too_large c s = record { requests = refl; answered = omega arith }
  read_body-IsAnswer bound not_json c s = record { requests = refl; answered = omega arith }
  read_body-IsAnswer bound trailing_data c s = record { requests = refl; answered = omega arith }
  read_body-IsAnswer bound (decoded batch) c s = check_batch-IsAnswer bound batch c s

  -- Whatever the request is and whatever the store answers, the handler keeps the count of
  -- requests equal, modulo 2^64, to the accepted, duplicate, rejected and failed ones together.
  pub handle_batch-IsAccounted :
      (c : Counters) (s : S) → IsAccounted c → IsAccounted (handle_batch lib config store rq c s).0
  unfolding handle_batch count_bytes count_time reject add_counter
  handle_batch-IsAccounted c s ok =
      let counted : Counters = record c { requests = add_counter c.requests 1 } in
      let auth = authorised config rq.authorization rq.token rq.claimed_server_id in
      let a = read_body-IsAnswer auth.0 rq.body counted s in
      elim (Bool-cases auth.1) [
        | inl e ↦ rw (e) (record { total = omega (arith, ok.total, a.requests, a.answered) })
        | inr e ↦ rw (e) (record { total = omega (arith, ok.total) })
      ]
