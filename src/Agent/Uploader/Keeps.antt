-- ===== src/Agent/Uploader/Keeps.antt =====
-- internal/agent/uploader.go: the outbox and the disk after the calls of uploadNext.
use dayz_behaviour.Prelude.{
  ℕ, ◌≡◌, Option, none, some, String, Bool-cases, Option-cases, ◌⊎◌, inl, inr,
}
use dayz_behaviour.Prelude.Text.{trim}
use dayz_behaviour.Disk.{Disk}
use dayz_behaviour.Agent.Outbox.{Outbox, QueueItem, OutboxError, peek, read, remove, dead_letter}
use dayz_behaviour.Agent.Outbox.Invariant.{IsConsistent, remove-IsConsistent}
use dayz_behaviour.Agent.Outbox.DeadLetter.{dead_letter-IsConsistent, IsOutside}
use dayz_behaviour.Agent.Uploader.{
  Agent, Exchange, UploadEnv, Uploaded, Reasons, response, no_request, no_response, no_body,
  is_success, is_permanent_upstream_rejection, upload_next, sent, exchanged, answered, attempt,
  after_remove, after_dead_letter,
}

module _ (P : Outbox → Disk → Type 0) where
  after_remove-keeps :
      (env : UploadEnv) (a : Agent) (p : Outbox × Disk × Option OutboxError)
      → P p.0 p.1
      → P (after_remove env a p).0.outbox (after_remove env a p).0.disk
  unfolding after_remove
  after_remove-keeps env a (o, disk, some e) h = h
  after_remove-keeps env a (o, disk, none) h = h

  after_dead_letter-keeps :
      (status : ℕ) (message : String) (a : Agent) (p : Outbox × Disk × Option OutboxError)
      → P p.0 p.1
      → P
          (after_dead_letter status message a p).0.outbox
          (after_dead_letter status message a p).0.disk
  unfolding after_dead_letter
  after_dead_letter-keeps status message a (o, disk, some e) h = h
  after_dead_letter-keeps status message a (o, disk, none) h = h

  module _ (reasons : Reasons) (env : UploadEnv) (a : Agent) (start : P a.outbox a.disk)
      (removes : (item : QueueItem)
        → let p = remove env.remove_fails item a.outbox a.disk in P p.0 p.1)
      (buries : (item : QueueItem) (reason : String)
        → let p = dead_letter env.dead_letter item reason a.outbox a.disk in P p.0 p.1) where
    abbrev Holds : Uploaded → Type 0
    Holds r = P r.0.outbox r.0.disk

    answered-keeps :
        (item : QueueItem) (status : ℕ) (message : String)
        → Holds (answered reasons env item status message (attempt reasons env a))
    unfolding answered attempt
    answered-keeps item status message = elim (Bool-cases (is_success status)) [
      | inl taken ↦
          rw (taken, answered)
            (after_remove-keeps env (attempt reasons env a)
              (remove env.remove_fails item a.outbox a.disk) (removes item))
      | inr refused ↦ elim (Bool-cases (is_permanent_upstream_rejection status)) [
        | inl final ↦
            rw (refused, final, answered)
              (after_dead_letter-keeps status message (attempt reasons env a)
                (dead_letter env.dead_letter item (reasons status message) a.outbox a.disk)
                (buries item (reasons status message)))
        | inr later ↦ rw (refused, later, answered) start
      ]
    ]

    exchanged-keeps :
        (item : QueueItem) (x : Exchange)
        → Holds (exchanged reasons env item x (attempt reasons env a))
    unfolding exchanged attempt
    exchanged-keeps item no_request = start
    exchanged-keeps item no_response = start
    exchanged-keeps item no_body = start
    exchanged-keeps item (response status body) = answered-keeps item status (trim body)

    sent-keeps : (item : QueueItem) (r : String ⊎ OutboxError) → Holds (sent reasons env item r a)
    unfolding sent
    sent-keeps item (inr e) = start
    sent-keeps item (inl content) = exchanged-keeps item (env.exchange content)

    pub upload_next-keeps : Holds (upload_next reasons env a)
    unfolding upload_next
    upload_next-keeps = elim (Option-cases (peek a.outbox)) [
      | inl idle ↦ rw (idle, upload_next) start
      | inr (item, next) ↦
          rw (next, upload_next) (sent-keeps item (read env.read_fails item a.disk))
    ]

-- what a dead letter meets: no queued file below its directory, and a fresh temporary name
pub record IsCalm (env : UploadEnv) (a : Agent) : Type 0 where
  pub outside : IsOutside a.outbox
  pub fresh : a.disk env.dead_letter.write.temp_path ≡ none

-- An upload keeps a consistent outbox consistent, whatever the upstream answers and whatever
-- fails, if no queued file lies below the dead-letter directory and the temporary name for the
-- reason file is free.
pub upload_next-IsConsistent :
    (reasons : Reasons) (env : UploadEnv) (a : Agent)
    → IsConsistent a.outbox a.disk
    → IsCalm env a
    → let r = upload_next reasons env a in IsConsistent r.0.outbox r.0.disk
upload_next-IsConsistent reasons env a ok calm =
    upload_next-keeps IsConsistent reasons env a ok
      (λ item. remove-IsConsistent env.remove_fails item a.outbox a.disk ok)
      (λ item reason.
        dead_letter-IsConsistent env.dead_letter item reason a.outbox a.disk ok calm.outside
          calm.fresh)
