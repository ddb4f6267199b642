-- ===== src/Agent/Outbox/Order.antt =====
-- internal/agent/outbox.go: Peek, and Remove and DeadLetter of what it shows.
use dayz_behaviour.Prelude.{
  ℕ, ◌+◌, ◌≡◌, ◌≢◌, String, subst, refl, ap, Bool, true, false, none, some, List, ◌∷◌, arith,
  Bool-cases, Option-cases, inl, inr,
}
use dayz_behaviour.Prelude.Text.{eq_iff}
use dayz_behaviour.Disk.{Disk}
use dayz_behaviour.Agent.Outbox.{
  Outbox, QueuedFile, QueueItem, OutboxError, DeadLetterEnv, peek, read, remove, dead_letter,
  index_of, index_from, remove_at, remove_nth, drop_item, remove_failed,
}
use dayz_behaviour.Agent.Outbox.Items.{AllStored}
use dayz_behaviour.Agent.Outbox.Invariant.{IsConsistent}
use dayz_behaviour.Agent.Outbox.DeadLetter.{dead_letter-cases, answer}

abbrev pub item_of : QueuedFile → QueueItem
item_of f = record { path = f.path; size = f.size }

index_from-head :
    (i : ℕ) (f : QueuedFile) (fs : List QueuedFile) → index_from i f.path (f ∷ fs) ≡ some i
unfolding index_from
index_from-head i f fs = ground (arith, eq_iff f.path f.path)

module _ (o : Outbox) (disk : Disk) (f : QueuedFile) (fs : List QueuedFile) where
  pub index_of-head : IsConsistent o disk → o.items ≡ f ∷ fs → index_of o f.path ≡ some 0
  unfolding index_of
  index_of-head ok queue =
      rw (ok.known_exact f.path, queue)
        (ground (arith, eq_iff f.path f.path, index_from-head 0 f fs))

  items-remove_at_head : o.items ≡ f ∷ fs → (remove_at 0 o).items ≡ fs
  unfolding remove_at drop_item remove_nth
  items-remove_at_head queue = rw queue refl

  dead_letters-remove_at : (k : ℕ) → (remove_at k o).dead_letters ≡ o.dead_letters
  unfolding remove_at drop_item
  dead_letters-remove_at k = ground arith

  -- On a consistent outbox whose oldest file is `f`, Peek shows `f`, and a Remove of it that
  -- meets no fault returns no error, leaves the rest of the queue in order and takes the file off
  -- the disk.
  pub remove-peek :
      IsConsistent o disk
      → o.items ≡ f ∷ fs
      → let p = remove false (item_of f) o disk in
        (peek o ≡ some (item_of f)) × (p.0.items ≡ fs) × (p.1 f.path ≡ none) × (p.2 ≡ none)
  unfolding remove peek
  remove-peek ok queue =
      let found = index_of-head ok queue in
      (
        rw (queue, peek),
        rw (found, remove) (items-remove_at_head queue),
        rw (found, remove) (ground (arith, eq_iff f.path f.path)),
        rw (found, remove),
      )

  -- On a consistent outbox whose oldest file is `f`, a DeadLetter of `f` that returns no error
  -- leaves the rest of the queue in order and counts one dead letter more.
  pub dead_letter-peek :
      (env : DeadLetterEnv) (reason : String)
      → IsConsistent o disk
      → o.items ≡ f ∷ fs
      → let p = dead_letter env (item_of f) reason o disk in
        p.2 ≡ none → (p.0.items ≡ fs) × (p.0.dead_letters ≡ o.dead_letters + 1)
  dead_letter-peek env reason ok queue h =
      let found = index_of-head ok queue in
      elim (dead_letter-cases env (item_of f) reason o disk) [
        | inl (e, missing, same) ↦ absurd (cc (missing (cc (ap answer same, h)), found))
        | inr (k, rest, content, at, there, same) ↦
            let e : k ≡ 0 = ground (arith, at, found) in
            rw (same, e)
              (items-remove_at_head queue, ap (λ (n : ℕ). n + 1) (dead_letters-remove_at 0))
      ]

  -- The oldest file leaves the queue with every Remove that reports no error.
  pub remove-head :
      (fails : Bool)
      → IsConsistent o disk
      → o.items ≡ f ∷ fs
      → (remove fails (item_of f) o disk).2 ≡ none
      → (remove fails (item_of f) o disk).0.items ≡ fs
  remove-head false ok queue h = (remove-peek ok queue).1
  remove-head true ok queue h = absurd (cc (remove_fails-head ok queue, h))
    where
      remove_fails-head :
          IsConsistent o disk
          → o.items ≡ f ∷ fs
          → (remove true (item_of f) o disk).2 ≡ some remove_failed
      remove_fails-head ok queue = unfold remove in rw (index_of-head ok queue, remove)

pub remove-err :
    (fails : Bool) (item : QueueItem) (o : Outbox) (disk : Disk) (e : OutboxError)
    → (remove fails item o disk).2 ≡ some e
    → ((remove fails item o disk).0 ≡ o) × ((remove fails item o disk).1 ≡ disk)
unfolding remove
remove-err fails item o disk e h = elim (Option-cases (index_of o item.path)) [
  | inl missing ↦ rw (missing, remove) (refl, refl)
  | inr (k, found) ↦ elim (Bool-cases fails) [
    | inl stuck ↦ rw (found, stuck, remove) (refl, refl)
    | inr fine ↦ absurd (cc (rw (found, fine, remove) at h))
  ]
]

pub dead_letter-err :
    (env : DeadLetterEnv) (item : QueueItem) (reason : String) (o : Outbox) (disk : Disk)
    (e : OutboxError)
    → (dead_letter env item reason o disk).2 ≡ some e
    → ((dead_letter env item reason o disk).0 ≡ o) × ((dead_letter env item reason o disk).1 ≡ disk)
dead_letter-err env item reason o disk e h = elim (dead_letter-cases env item reason o disk) [
  | inl (e', missing, same) ↦ rw same (refl, refl)
  | inr (k, rest, content, at, there, same) ↦ absurd (cc)
]

-- What Read returns is the content of the item's file.
pub read-inl :
    (fails : Bool) (item : QueueItem) (disk : Disk) (content : String)
    → read fails item disk ≡ inl content
    → disk item.path ≡ some content
unfolding read
read-inl fails item disk content h = ground arith

-- Without a fault, Read returns the content of the oldest file of a consistent outbox.
pub read-stored :
    (o : Outbox) (disk : Disk) (f : QueuedFile) (fs : List QueuedFile)
    → IsConsistent o disk
    → o.items ≡ f ∷ fs
    → f.path ≢ ""
    → (content : String) × (read false (item_of f) disk ≡ inl content)
unfolding read
read-stored o disk f fs ok queue named =
    let (content, there, size) = (subst (AllStored disk) queue ok.stored).0 in
    (content, ground (arith, there, named, eq_iff f.path ""))
