-- ===== src/Agent/Uploader.antt =====
-- internal/agent/uploader.go: one upload, and the loop with its retry delay. The HTTP exchange, the
-- clock and the context are inputs; the mutex serialises the status updates.
pub mod Backoff
pub mod Delivery
pub mod Drain
pub mod Keeps
pub mod Loop
mod Witness
use dayz_behaviour.Prelude.{
  ℕ, zero, suc, ◌+◌, ◌%◌, ◌^◌, ◌*◌, Bool, true, false, ◌&&◌, ◌||◌, not, Option, none, some, List,
  [], ◌∷◌, String, ltb, leb, ◌==◌, if◌then◌else◌, inl, inr, ◌⊎◌,
}
use dayz_behaviour.Prelude.Int.{ℤ, pos, ltb_ℤ}
use dayz_behaviour.Prelude.Words.{add64}
use dayz_behaviour.Prelude.Text.{str_eq, trim, ◌<>◌}
use dayz_behaviour.Disk.{Disk}
use dayz_behaviour.Agent.Outbox.{
  Outbox, QueueItem, OutboxError, DeadLetterEnv, peek, read, remove, dead_letter,
}

pub data UploadError : Type 0 where
  queue_error : OutboxError → UploadError
  create_request send_request read_response : UploadError
  upstream_returned : ℕ → String → UploadError

-- LastError: the text of the last error, and none for the empty text
pub data Failure : Type 0 where
  transient : UploadError → Failure
  permanent : ℕ → String → Failure

pub record UploadStatus : Type 0 where
  pub uploaded_batches : ℕ  -- uint64
  pub upload_failures : ℕ  -- uint64
  pub last_attempt_at : Option ℤ
  pub last_success_at : Option ℤ
  pub last_error : Option Failure

-- the outbox, its disk and the status that the uploader shares with the handlers
pub record Agent : Type 0 where
  pub outbox : Outbox
  pub disk : Disk
  pub status : UploadStatus

-- what the HTTP client makes of a payload
pub data Exchange : Type 0 where
  no_request no_response no_body : Exchange
  response : ℕ → String → Exchange

pub record UploadEnv : Type 0 where
  pub read_fails : Bool
  pub remove_fails : Bool
  pub dead_letter : DeadLetterEnv
  pub exchange : String → Exchange
  pub status_text : ℕ → String
  pub attempted_at : ℤ
  pub succeeded_at : ℤ

pub is_permanent_upstream_rejection : ℕ → Bool
is_permanent_upstream_rejection status =
    status == 400 || status == 409 || status == 413 || status == 422

abbrev pub is_success : ℕ → Bool
is_success status = leb 200 status && ltb status 300

pub record_success : ℤ → UploadStatus → UploadStatus
record_success now s = record s {
  uploaded_batches = (s.uploaded_batches + 1) % 2 ^ 64;
  last_success_at = some now;
  last_error = none;
}

pub record_failure : UploadError → UploadStatus → UploadStatus
record_failure e s = record s {
  upload_failures = (s.upload_failures + 1) % 2 ^ 64;
  last_error = some (transient e);
}

pub record_permanent_failure : ℕ → String → UploadStatus → UploadStatus
record_permanent_failure status message s = record s {
  upload_failures = (s.upload_failures + 1) % 2 ^ 64;
  last_error = some (permanent status message);
}

-- the reason of a dead letter; fmt.Sprintf writes the status in decimal
abbrev pub Reasons : Type 0
Reasons = ℕ → String → String

-- the new agent, whether an item was processed, and the error
abbrev pub Uploaded : Type 0
Uploaded = Agent × Bool × Option UploadError

after_remove : UploadEnv → Agent → Outbox × Disk × Option OutboxError → Uploaded
after_remove env a (o, disk, some e) =
    (record a { outbox = o; disk = disk }, false, some (queue_error e))
after_remove env a (o, disk, none) = (
  record { outbox = o; disk = disk; status = record_success env.succeeded_at a.status },
  true,
  none,
)

after_dead_letter : ℕ → String → Agent → Outbox × Disk × Option OutboxError → Uploaded
after_dead_letter status message a (o, disk, some e) =
    (record a { outbox = o; disk = disk }, false, some (queue_error e))
after_dead_letter status message a (o, disk, none) = (
  record { outbox = o; disk = disk; status = record_permanent_failure status message a.status },
  true,
  none,
)

module _ (reasons : Reasons) (env : UploadEnv) where
  answered : QueueItem → ℕ → String → Agent → Uploaded
  answered item status message a =
      if is_success status
      then after_remove env a (remove env.remove_fails item a.outbox a.disk)
      else if is_permanent_upstream_rejection status
      then after_dead_letter status message a
          (dead_letter env.dead_letter item (reasons status message) a.outbox a.disk)
      else (
        a,
        false,
        some (
            upstream_returned status
              (if str_eq message "" then env.status_text status else message)),
      )

  exchanged : QueueItem → Exchange → Agent → Uploaded
  exchanged item no_request a = (a, false, some create_request)
  exchanged item no_response a = (a, false, some send_request)
  exchanged item no_body a = (a, false, some read_response)
  exchanged item (response status body) a = answered item status (trim body) a

  attempt : Agent → Agent
  attempt a = record a { status = record a.status { last_attempt_at = some env.attempted_at } }

  sent : QueueItem → String ⊎ OutboxError → Agent → Uploaded
  sent item (inr e) a = (a, false, some (queue_error e))
  sent item (inl payload) a = exchanged item (env.exchange payload) (attempt a)

  pub upload_next : Agent → Uploaded
  upload_next a = elim (peek a.outbox) [
    | none ↦ (a, false, none)
    | some item ↦ sent item (read env.read_fails item a.disk) a
  ]

-- durations are int64 nanoseconds
pub record RetryConfig : Type 0 where
  pub minimum_retry : ℤ
  pub maximum_retry : ℤ

pub data Waited : Type 0 where
  cancelled woken elapsed : Waited

pub record RoundEnv : Type 0 where
  pub upload : UploadEnv
  pub context_done : Bool
  pub waited : Waited

pub record RunState : Type 0 where
  pub agent : Agent
  pub retry_delay : ℤ

pub data Round : Type 0 where
  stop : RunState → Round
  continue : RunState → Round

-- retryDelay *= 2, then the cap
pub double_delay : RetryConfig → ℤ → ℤ
double_delay config delay =
    let doubled = add64 delay delay in
    if ltb_ℤ config.maximum_retry doubled then config.maximum_retry else doubled

-- a wait that the token ends takes the token out of the channel
consume : Agent → Agent
consume a = record a { outbox = record a.outbox { wake = false } }

failed_round : RetryConfig → RoundEnv → UploadError → Agent → ℤ → Round
failed_round config env e a delay =
    let b = record a { status = record_failure e a.status } in
    elim env.waited [
      | cancelled ↦ stop (record { agent = b; retry_delay = delay })
      | _ ↦ continue (record { agent = b; retry_delay = double_delay config delay })
    ]

idle_round : RetryConfig → RoundEnv → Agent → Round
idle_round config env a = elim env.waited [
  | cancelled ↦ stop (record { agent = a; retry_delay = config.minimum_retry })
  | woken ↦ continue (record { agent = consume a; retry_delay = config.minimum_retry })
  | elapsed ↦ continue (record { agent = a; retry_delay = config.minimum_retry })
]

after_upload : RetryConfig → RoundEnv → ℤ → Uploaded → Round
after_upload config env delay (a, processed, err) =
    if env.context_done then stop (record { agent = a; retry_delay = delay }) else elim err [
      | some e ↦ failed_round config env e a delay
      | none ↦
          if processed
          then continue (record { agent = a; retry_delay = config.minimum_retry })
          else idle_round config env a
    ]

pub round : Reasons → RetryConfig → RoundEnv → RunState → Round
round reasons config env s =
    after_upload config env s.retry_delay (upload_next reasons env.upload s.agent)

-- Run, for as many rounds as the list has inputs
pub run : Reasons → RetryConfig → List RoundEnv → RunState → RunState
run reasons config [] s = s
run reasons config (env ∷ envs) s = elim (round reasons config env s) [
  | stop t ↦ t
  | continue t ↦ run reasons config envs t
]
