-- ===== src/Agent/Uploader/Delivery.antt =====
-- internal/agent/uploader.go: what one uploadNext does to the oldest batch.
use dayz_behaviour.Prelude.{
  ℕ, ◌≡◌, refl, ap, ◌∙◌, true, false, Option, none, some, List, ◌∷◌, String, Bool-cases, ◌⊎◌, inl,
  inr,
}
use dayz_behaviour.Prelude.Text.{trim}
use dayz_behaviour.Disk.{Disk}
use dayz_behaviour.Agent.Outbox.{Outbox, QueuedFile, OutboxError, read, remove, dead_letter}
use dayz_behaviour.Agent.Outbox.Invariant.{IsConsistent}
use dayz_behaviour.Agent.Outbox.Order.{
  item_of, remove-peek, read-inl, remove-head, remove-err, dead_letter-peek, dead_letter-err,
}
use dayz_behaviour.Agent.Uploader.{
  Agent, Exchange, UploadEnv, Uploaded, Reasons, response, no_request, no_response, no_body,
  is_success, is_permanent_upstream_rejection, upload_next, sent, exchanged, answered, attempt,
  after_remove, after_dead_letter,
}

-- the outbox and the disk are as before, and nothing counts as processed
pub record IsKept (a : Agent) (r : Uploaded) : Type 0 where
  pub outbox : r.0.outbox ≡ a.outbox
  pub disk : r.0.disk ≡ a.disk
  pub idle : r.1 ≡ false

-- the oldest file was sent whole, the upstream's status was final, and the file left the queue
pub record IsSettled (env : UploadEnv) (a : Agent) (f : QueuedFile) (fs : List QueuedFile)
    (r : Uploaded) : Type 0 where
  pub content : String
  pub on_disk : a.disk f.path ≡ some content
  pub status : ℕ
  pub body : String
  pub exchanged : env.exchange content ≡ response status body
  pub final : (is_success status ≡ true) ⊎ (is_permanent_upstream_rejection status ≡ true)
  pub rest : r.0.outbox.items ≡ fs
  pub done : (r.1 ≡ true) × (r.2 ≡ none)

after_remove-cases :
    (env : UploadEnv) (a : Agent) (p : Outbox × Disk × Option OutboxError)
    → ((e : OutboxError) × (p.2 ≡ some e)
        × ((after_remove env a p).0.outbox ≡ p.0)
        × ((after_remove env a p).0.disk ≡ p.1)
        × ((after_remove env a p).1 ≡ false))
      ⊎ (p.2 ≡ none)
        × ((after_remove env a p).0.outbox ≡ p.0)
        × ((after_remove env a p).1 ≡ true)
        × ((after_remove env a p).2 ≡ none)
unfolding after_remove
after_remove-cases env a (o, disk, some e) = inl (e, refl, refl, refl, refl)
after_remove-cases env a (o, disk, none) = inr (refl, refl, refl, refl)

after_dead_letter-cases :
    (status : ℕ) (message : String) (a : Agent) (p : Outbox × Disk × Option OutboxError)
    → ((e : OutboxError) × (p.2 ≡ some e)
        × ((after_dead_letter status message a p).0.outbox ≡ p.0)
        × ((after_dead_letter status message a p).0.disk ≡ p.1)
        × ((after_dead_letter status message a p).1 ≡ false))
      ⊎ (p.2 ≡ none)
        × ((after_dead_letter status message a p).0.outbox ≡ p.0)
        × ((after_dead_letter status message a p).1 ≡ true)
        × ((after_dead_letter status message a p).2 ≡ none)
unfolding after_dead_letter
after_dead_letter-cases status message a (o, disk, some e) = inl (e, refl, refl, refl, refl)
after_dead_letter-cases status message a (o, disk, none) = inr (refl, refl, refl, refl)

module _ (reasons : Reasons) (env : UploadEnv) (a : Agent) (f : QueuedFile)
    (fs : List QueuedFile) where
  abbrev Outcome : String → Uploaded → Type 0
  Outcome content r =
      IsKept a r
      ⊎ (status : ℕ) × (body : String) × (env.exchange content ≡ response status body)
        × ((is_success status ≡ true) ⊎ (is_permanent_upstream_rejection status ≡ true))
        × (r.0.outbox.items ≡ fs)
        × ((r.1 ≡ true) × (r.2 ≡ none))

  module _ (ok : IsConsistent a.outbox a.disk) (queue : a.outbox.items ≡ f ∷ fs) where
    removed-Outcome :
        (content : String) (status : ℕ) (body : String)
        → env.exchange content ≡ response status body
        → is_success status ≡ true
        → Outcome content (
            after_remove env
              (attempt reasons env a)
              (remove env.remove_fails (item_of f) a.outbox a.disk))
    unfolding attempt
    removed-Outcome content status body sent success =
        let p = remove env.remove_fails (item_of f) a.outbox a.disk in
        elim (after_remove-cases env (attempt reasons env a) p) [
          | inl (e, h, o, d, idle) ↦
              let (same_o, same_d) = remove-err env.remove_fails (item_of f) a.outbox a.disk e h in
              inl (record { outbox = o ∙ same_o; disk = d ∙ same_d; idle = idle })
          | inr (h, o, done, fine) ↦ inr (
            status,
            body,
            sent,
            inl success,
            ap (λ (x : Outbox). x.items) o
                ∙ remove-head a.outbox a.disk f fs env.remove_fails ok queue h,
            (done, fine),
          )
        ]

    buried-Outcome :
        (content : String) (status : ℕ) (body message : String)
        → env.exchange content ≡ response status body
        → is_permanent_upstream_rejection status ≡ true
        → Outcome content (
            after_dead_letter status message
              (attempt reasons env a)
              (dead_letter env.dead_letter (item_of f) (reasons status message) a.outbox a.disk))
    unfolding attempt
    buried-Outcome content status body message sent rejected =
        let p = dead_letter env.dead_letter (item_of f) (reasons status message) a.outbox a.disk in
        elim (after_dead_letter-cases status message (attempt reasons env a) p) [
          | inl (e, h, o, d, idle) ↦
              let (same_o, same_d) =
                dead_letter-err env.dead_letter (item_of f) (reasons status message) a.outbox a.disk
                  e h in
              inl (record { outbox = o ∙ same_o; disk = d ∙ same_d; idle = idle })
          | inr (h, o, done, fine) ↦ inr (
            status,
            body,
            sent,
            inr rejected,
            ap (λ (x : Outbox). x.items) o
                ∙ (dead_letter-peek a.outbox a.disk f fs env.dead_letter (reasons status message) ok
                    queue h).0,
            (done, fine),
          )
        ]

    answered-Outcome :
        (content : String) (status : ℕ) (body : String)
        → env.exchange content ≡ response status body
        → Outcome content
            (answered reasons env (item_of f) status (trim body) (attempt reasons env a))
    unfolding answered attempt
    answered-Outcome content status body sent = elim (Bool-cases (is_success status)) [
      | inl taken ↦ rw (taken, answered) (removed-Outcome content status body sent taken)
      | inr refused ↦ elim (Bool-cases (is_permanent_upstream_rejection status)) [
        | inl final ↦
            rw (refused, final, answered)
              (buried-Outcome content status body (trim body) sent final)
        | inr later ↦
            rw (refused, later, answered) (inl (record { outbox = refl; disk = refl; idle = refl }))
      ]
    ]

    exchanged-Outcome :
        (content : String) (x : Exchange)
        → env.exchange content ≡ x
        → Outcome content (exchanged reasons env (item_of f) x (attempt reasons env a))
    unfolding exchanged attempt
    exchanged-Outcome content no_request e =
        inl (record { outbox = refl; disk = refl; idle = refl })
    exchanged-Outcome content no_response e =
        inl (record { outbox = refl; disk = refl; idle = refl })
    exchanged-Outcome content no_body e = inl (record { outbox = refl; disk = refl; idle = refl })
    exchanged-Outcome content (response status body) e = answered-Outcome content status body e

    sent-Outcome :
        (r : String ⊎ OutboxError)
        → ((content : String) → r ≡ inl content → a.disk f.path ≡ some content)
        → IsKept a (sent reasons env (item_of f) r a)
          ⊎ IsSettled env a f fs (sent reasons env (item_of f) r a)
    unfolding sent
    sent-Outcome (inr e) there = inl (record { outbox = refl; disk = refl; idle = refl })
    sent-Outcome (inl content) there =
        elim (exchanged-Outcome content (env.exchange content) refl) [
          | inl kept ↦ inl kept
          | inr (status, body, sent, final, rest, done) ↦ inr (record {
            content = content;
            on_disk = there content refl;
            status = status;
            body = body;
            exchanged = sent;
            final = final;
            rest = rest;
            done = done;
          })
        ]

    -- On a consistent outbox whose oldest file is `f`, one upload either leaves the queue and the
    -- disk as they are and counts nothing as processed, or it has sent the whole content of `f`,
    -- has received a status that is 2xx or one of 400, 409, 413, 422, and leaves the rest of the
    -- queue in order, processed and without an error.
    pub upload_next_lem :
        IsKept a (upload_next reasons env a) ⊎ IsSettled env a f fs (upload_next reasons env a)
    unfolding upload_next
    upload_next_lem =
        rw ((remove-peek a.outbox a.disk f fs ok queue).0, upload_next)
          (sent-Outcome (read env.read_fails (item_of f) a.disk)
            (read-inl env.read_fails (item_of f) a.disk))
