-- ===== src/Agent/Uploader/Drain.antt =====
-- internal/agent/uploader.go: the rounds of Run while the upstream takes every batch.
use dayz_behaviour.Prelude.{
  ℕ, suc, ◌+◌, ◌%◌, ◌^◌, ◌<◌, ◌≡◌, ◌≢◌, refl, true, false, Option, none, some, List, [], ◌∷◌,
  String, arith, inl, length,
}
use dayz_behaviour.Prelude.Int.{ℤ}
use dayz_behaviour.Disk.{Disk}
use dayz_behaviour.Agent.Outbox.{Outbox, QueuedFile, OutboxError, remove}
use dayz_behaviour.Agent.Outbox.Invariant.{IsConsistent, remove-IsConsistent}
use dayz_behaviour.Agent.Outbox.Order.{item_of, remove-peek, read-stored}
use dayz_behaviour.Agent.Uploader.{
  Agent, RoundEnv, RunState, continue, RetryConfig, Reasons, Uploaded, response, is_success,
  record_success, upload_next, sent, exchanged, answered, attempt, after_remove, after_upload,
  round, run,
}

-- what an upload meets when nothing fails and the upstream answers every payload with a 2xx status
pub record IsAccepted (env : RoundEnv) : Type 0 where
  pub reads : env.upload.read_fails ≡ false
  pub removes : env.upload.remove_fails ≡ false
  pub runs : env.context_done ≡ false
  pub accepts :
      (content : String)
      → (status : ℕ) × (body : String) × (env.upload.exchange content ≡ response status body)
        × (is_success status ≡ true)

abbrev pub AllAccepted : List RoundEnv → Type 0
AllAccepted [] = Unit
AllAccepted (env ∷ envs) = IsAccepted env × AllAccepted envs

abbrev pub AllNamed : List QueuedFile → Type 0
AllNamed [] = Unit
AllNamed (f ∷ fs) = (f.path ≢ "") × AllNamed fs

-- the queue and the counter after a batch was taken
pub record IsTaken (a : Agent) (fs : List QueuedFile) (r : Uploaded) : Type 0 where
  pub consistent : IsConsistent r.0.outbox r.0.disk
  pub rest : r.0.outbox.items ≡ fs
  pub counted : r.0.status.uploaded_batches ≡ (a.status.uploaded_batches + 1) % 2 ^ 64
  pub done : r.1 ≡ true
  pub fine : r.2 ≡ none

module _ (reasons : Reasons) (env : RoundEnv) (a : Agent) (f : QueuedFile)
    (fs : List QueuedFile) where
  removed-IsTaken :
      (p : Outbox × Disk × Option OutboxError)
      → IsConsistent p.0 p.1
      → p.0.items ≡ fs
      → p.2 ≡ none
      → IsTaken a fs (after_remove env.upload (attempt reasons env.upload a) p)
  unfolding after_remove attempt record_success
  removed-IsTaken (o, disk, some e) ok rest h = absurd (cc (h))
  removed-IsTaken (o, disk, none) ok rest h = record {
    consistent = ok;
    rest = rest;
    counted = refl;
    done = refl;
    fine = refl;
  }

  module _ (given : IsAccepted env) (ok : IsConsistent a.outbox a.disk)
      (queue : a.outbox.items ≡ f ∷ fs) where
    sent-IsTaken :
        (content : String) → IsTaken a fs (sent reasons env.upload (item_of f) (inl content) a)
    unfolding sent exchanged answered attempt
    sent-IsTaken content =
        let (status, body, exchange, success) = given.accepts content in
        let p = remove env.upload.remove_fails (item_of f) a.outbox a.disk in
        let settled = remove-peek a.outbox a.disk f fs ok queue in
        rw (exchange, success)
          (removed-IsTaken p
            (remove-IsConsistent env.upload.remove_fails (item_of f) a.outbox a.disk ok)
            (rw (given.removes) settled.1) (rw (given.removes) settled.3))

    upload_next-IsTaken : f.path ≢ "" → IsTaken a fs (upload_next reasons env.upload a)
    unfolding upload_next sent attempt exchanged answered after_remove
    upload_next-IsTaken named =
        let (content, there) = read-stored a.outbox a.disk f fs ok queue named in
        rw ((remove-peek a.outbox a.disk f fs ok queue).0, upload_next, given.reads, there)
          (sent-IsTaken content)

-- the loop after the rounds that empty the queue
pub record IsDrained (a b : Agent) (n : ℕ) : Type 0 where
  pub empty : b.outbox.items ≡ []
  pub counted : b.status.uploaded_batches ≡ (a.status.uploaded_batches + n) % 2 ^ 64
  pub consistent : IsConsistent b.outbox b.disk

taken_on : (m n k : ℕ) → k ≡ (((m + 1) % 2 ^ 64) + n) % 2 ^ 64 → k ≡ (m + suc n) % 2 ^ 64
taken_on m n k h = omega arith

module _ (reasons : Reasons) (config : RetryConfig) where
  -- a round in which the batch was taken goes on with the rest
  after_upload-IsTaken :
      (env : RoundEnv) (delay : ℤ) (a : Agent) (fs : List QueuedFile) (r : Uploaded)
      → env.context_done ≡ false
      → IsTaken a fs r
      → after_upload config env delay r
        ≡ continue (record { agent = r.0; retry_delay = config.minimum_retry })
  unfolding after_upload
  after_upload-IsTaken env delay a fs (b, processed, err) runs taken =
      rw (runs, taken.fine, taken.done) refl

  -- Run empties a consistent queue of `n` files with non-empty paths in `n` rounds in which no
  -- call fails, the context lives and the upstream answers every payload with a 2xx status: the
  -- queue is then empty, the outbox is consistent and the count of uploaded batches has grown by
  -- `n`, modulo 2^64.
  pub run-IsDrained :
      (fs : List QueuedFile) (envs : List RoundEnv) (s : RunState)
      → AllAccepted envs
      → length envs ≡ length fs
      → IsConsistent s.agent.outbox s.agent.disk
      → s.agent.outbox.items ≡ fs
      → AllNamed fs
      → s.agent.status.uploaded_batches < 2 ^ 64
      → IsDrained s.agent (run reasons config envs s).agent (length fs)
  unfolding run round
  run-IsDrained [] [] s given same ok queue named small = record {
    empty = queue;
    counted = omega arith;
    consistent = ok;
  }
  run-IsDrained [] (env ∷ envs) s given same ok queue named small = absurd (omega arith)
  run-IsDrained (f ∷ fs) [] s given same ok queue named small = absurd (omega arith)
  run-IsDrained (f ∷ fs) (env ∷ envs) s given same ok queue named small =
      let taken = upload_next-IsTaken reasons env s.agent f fs given.0 ok queue named.0 in
      let r = upload_next reasons env.upload s.agent in
      let next : RunState = record { agent = r.0; retry_delay = config.minimum_retry } in
      let rest =
        run-IsDrained fs envs next given.1 (omega arith) taken.consistent taken.rest named.1
          (omega (arith, taken.counted)) in
      rw (after_upload-IsTaken env s.retry_delay s.agent fs r given.0.runs taken, run)
        (record {
          empty = rest.empty;
          counted =
              taken_on s.agent.status.uploaded_batches (length fs) _
                (rw (taken.counted) at (rest.counted));
          consistent = rest.consistent;
        })
