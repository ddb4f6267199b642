-- ===== src/Ingest.antt =====
-- internal/ingest/server.go: the credentials and the handler of one batch request. The HTTP request, the
-- answer of the JSON decoder and the measured times are inputs; the counters are uint64.
pub mod Auth
pub mod AuthMap
pub mod Counting
pub mod Storing
mod Witness
use Prim.Native.String.{slice}
use dayz_behaviour.Prelude.{
  ℕ, ◌+◌, ◌*◌, ◌%◌, ◌^◌, Bool, true, false, ◌&&◌, ◌||◌, not, Option, none, some, List, [], ◌∷◌,
  String, if◌then◌else◌, ◌==◌,
}
use dayz_behaviour.Prelude.Int.{ℤ, pos, negsuc, ltb_ℤ}
use dayz_behaviour.Prelude.Text.{str_eq, starts_with, len}
use dayz_behaviour.Json.{JsonLib}
use dayz_behaviour.Schema.{Batch, SchemaError, unsupported_version, invalid_batch, validate}
use dayz_behaviour.Storage.{StoreError, already_stored, batch_conflict, capacity_exceeded}

-- BatchStore, on the state `S` that a store keeps
pub record BatchStore (S : Type 0) : Type 0 where
  pub put : Batch → S → S × Option StoreError

pub record Config : Type 0 where
  pub bearer_token : String
  pub query_token : String
  pub max_request_bytes : ℤ
  pub server_credentials : List (String × String)
  pub expected_server_id : String

abbrev pub default_max_request_bytes : ℕ
default_max_request_bytes = 2 * 1024 * 1024

-- NewServer, of a store that is not nil
pub new_server : Config → Config
new_server config =
    if ltb_ℤ (pos 0) config.max_request_bytes
    then config
    else record config { max_request_bytes = pos default_max_request_bytes }

pub record Counters : Type 0 where
  pub requests : ℕ
  pub accepted : ℕ
  pub duplicates : ℕ
  pub rejected : ℕ
  pub storage_failures : ℕ
  pub auth_failures : ℕ
  pub decode_failures : ℕ
  pub validation_failures : ℕ
  pub bytes_received : ℕ
  pub request_microseconds : ℕ
  pub storage_microseconds : ℕ
  pub spool_files_imported : ℕ
  pub spool_batches_imported : ℕ

-- atomic.Uint64.Add
unfoldable pub add_counter : ℕ → ℕ → ℕ
add_counter n by = (n + by) % 2 ^ 64

-- what decoder.Decode and ensureEOF make of the body
pub data Body : Type 0 where
  too_large not_json trailing_data : Body
  decoded : Batch → Body

pub record Request : Type 0 where
  pub authorization : String
  pub token : String
  pub claimed_server_id : String
  pub body : Body
  pub bytes : ℕ
  pub microseconds : ℕ
  pub storage_microseconds : ℕ

pub record Response : Type 0 where
  pub status : ℕ
  pub code : String
  pub retry_after : Bool
  pub batch_sequence : Option ℕ

pub bearer_credential : String → String
bearer_credential header = if starts_with header "Bearer " then slice header 7 (len header) else ""

-- equal lengths, and then crypto/subtle's comparison of the bytes
abbrev pub secure_equal : String → String → Bool
secure_equal provided expected = len provided == len expected && str_eq provided expected

-- the map of the credentials
pub credential_of : String → List (String × String) → Option String
credential_of id [] = none
credential_of id ((k, v) ∷ rest) =
    let found = credential_of id rest in if str_eq k id then some v else found

abbrev pub is_nil {ℓ} : {A : Type ℓ} → List A → Bool
is_nil [] = true
is_nil (x ∷ xs) = false

by_server : Config → String → String → String × Bool
by_server config bearer claimed = elim (credential_of claimed config.server_credentials) [
  | none ↦ ("", false)
  | some expected ↦
      if str_eq bearer "" || not (secure_equal bearer expected)
      then ("", false)
      else (claimed, true)
]

-- the server that the credential is bound to, "" for none, and whether the request may go on
pub authorised : Config → String → String → String → String × Bool
unfolding by_server
authorised config header query_credential claimed =
    let bearer = bearer_credential header in
    if not (str_eq claimed "") && not (is_nil config.server_credentials)
    then by_server config bearer claimed
    else if str_eq config.bearer_token "" && str_eq config.query_token ""
    then ("", is_nil config.server_credentials)
    else if not (str_eq config.bearer_token "")
        && (not (str_eq bearer "") && secure_equal bearer config.bearer_token)
    then ("", true)
    else (
      "",
      not (str_eq config.query_token "") && secure_equal query_credential config.query_token,
    )

write_error : ℕ → String → Response
write_error status code = record {
  status = status;
  code = code;
  retry_after = false;
  batch_sequence = none;
}

reject : Counters → Counters
reject c = record c { rejected = add_counter c.rejected 1 }

-- what the handler makes of the answer of the store
pub answer_stored : Batch → Option StoreError → Counters → Counters × Response
unfolding write_error reject
answer_stored batch none c = (
  record c { accepted = add_counter c.accepted 1 },
  record {
    status = 202;
    code = "stored";
    retry_after = false;
    batch_sequence = some batch.batch_sequence;
  },
)
answer_stored batch (some already_stored) c = (
  record c { duplicates = add_counter c.duplicates 1 },
  record {
    status = 200;
    code = "duplicate";
    retry_after = false;
    batch_sequence = some batch.batch_sequence;
  },
)
answer_stored batch (some batch_conflict) c = (reject c, write_error 409 "batch_conflict")
answer_stored batch (some capacity_exceeded) c = (
  record c { storage_failures = add_counter c.storage_failures 1 },
  record {
    status = 503;
    code = "storage_capacity_exceeded";
    retry_after = true;
    batch_sequence = none;
  },
)
answer_stored batch (some e) c = (
  record c { storage_failures = add_counter c.storage_failures 1 },
  write_error 500 "storage_failed",
)

error_code : SchemaError → String
error_code unsupported_version = "unsupported_schema_version"
error_code (invalid_batch why) = "invalid_batch"

-- a stage of the handler: the counters, the store and the response
abbrev pub Outcome : Type 0 → Type 0
Outcome S = Counters × S × Response

pub store_batch : {S : Type 0} → BatchStore S → Request → Batch → Counters → S → Outcome S
unfolding answer_stored
store_batch store rq batch c s =
    let (s', err) = store.put batch s in
    let timed : Counters = record c {
      storage_microseconds = add_counter c.storage_microseconds rq.storage_microseconds;
    } in
    let (c', response) = answer_stored batch err timed in (c', s', response)

-- from the validation on
pub check_batch :
    {S : Type 0}
    → JsonLib
    → Config
    → BatchStore S
    → Request
    → String
    → Batch
    → Counters
    → S
    → Outcome S
unfolding write_error reject error_code
check_batch lib config store rq bound batch c s = elim (validate lib batch) [
  | some e ↦ (
    reject (record c { validation_failures = add_counter c.validation_failures 1 }),
    s,
    write_error 422 (error_code e),
  )
  | none ↦
      if not (str_eq config.expected_server_id "")
        && not (str_eq batch.server_id config.expected_server_id)
      then (reject c, s, write_error 403 "server_id_mismatch")
      else if not (str_eq bound "") && not (str_eq batch.server_id bound)
      then (
        reject (record c { auth_failures = add_counter c.auth_failures 1 }),
        s,
        write_error 403 "server_id_mismatch",
      )
      else store_batch store rq batch c s
]

undecoded : {S : Type 0} → ℕ → String → Counters → S → Outcome S
unfolding write_error reject
undecoded status code c s = (
  reject (record c { decode_failures = add_counter c.decode_failures 1 }),
  s,
  write_error status code,
)

pub read_body :
    {S : Type 0}
    → JsonLib
    → Config
    → BatchStore S
    → Request
    → String
    → Body
    → Counters
    → S
    → Outcome S
unfolding undecoded
read_body lib config store rq bound too_large c s = undecoded 413 "request_too_large" c s
read_body lib config store rq bound not_json c s = undecoded 400 "invalid_json" c s
read_body lib config store rq bound trailing_data c s = undecoded 400 "invalid_json" c s
read_body lib config store rq bound (decoded batch) c s =
    check_batch lib config store rq bound batch c s

-- the deferred counts: of the bytes once the body is opened, of the time always
count_bytes : {S : Type 0} → Request → Outcome S → Outcome S
count_bytes rq r =
    (record r.0 { bytes_received = add_counter r.0.bytes_received rq.bytes }, r.1, r.2)

count_time : {S : Type 0} → Request → Outcome S → Outcome S
count_time rq r = (
  record r.0 { request_microseconds = add_counter r.0.request_microseconds rq.microseconds },
  r.1,
  r.2,
)

pub handle_batch :
    {S : Type 0} → JsonLib → Config → BatchStore S → Request → Counters → S → Outcome S
unfolding count_bytes count_time write_error reject
handle_batch lib config store rq c s =
    let counted : Counters = record c { requests = add_counter c.requests 1 } in
    let (bound, allowed) = authorised config rq.authorization rq.token rq.claimed_server_id in
    count_time rq (
      if allowed then count_bytes rq (read_body lib config store rq bound rq.body counted s) else (
        reject (record counted { auth_failures = add_counter counted.auth_failures 1 }),
        s,
        write_error 401 "unauthorised",
      ))

add_if_positive : ℤ → ℕ → ℕ
add_if_positive (pos n) counter = add_counter counter n
add_if_positive (negsuc n) counter = counter

pub record_spool_import : ℤ → ℤ → Counters → Counters
unfolding add_if_positive
record_spool_import files batches c = record c {
  spool_files_imported = add_if_positive files c.spool_files_imported;
  spool_batches_imported = add_if_positive batches c.spool_batches_imported;
}
