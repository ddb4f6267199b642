-- ===== src/Agent/Outbox/DeadLetter.antt =====
-- internal/agent/outbox.go: DeadLetter and the invariant of the outbox.
use text.Mathlib.TextLemmas.{append_assoc}
use dayz_behaviour.Prelude.{
  ℕ, ◌+◌, ◌≡◌, ◌≢◌, sym, ap, ◌∙◌, true, false, Option, none, some, String, arith, Bool-cases,
  Option-cases, ◌⊎◌, inl, inr,
}
use dayz_behaviour.Prelude.Text.{eq_iff, ◌<>◌}
use dayz_behaviour.Disk.{Disk, rename_file}
use dayz_behaviour.Disk.Atomic.{atomic_write-frame}
use dayz_behaviour.Agent.Outbox.{
  Outbox, QueueItem, OutboxError, DeadLetterEnv, dead_letter, bury, move_to, dead_letter_name,
  write_reason, relative, index_of, remove_at, resolve_failed, dead_letter_directory,
  inspect_dead_letter, move_failed,
}
use dayz_behaviour.Agent.Outbox.Items.{has_path, has_path-stored}
use dayz_behaviour.Agent.Outbox.Invariant.{IsConsistent, index_of-found, remove_at-IsConsistent}

-- No queued file lies below the dead-letter directory.
abbrev pub IsOutside : Outbox → Type 0
IsOutside o = (rest : String) → has_path (o.dead_letter_dir <> ("/" <> rest)) o.items ≡ false

-- the state after a batch was moved to `destination`
abbrev buried :
    DeadLetterEnv → String → ℕ → String → Outbox → Disk → Outbox × Disk × Option OutboxError
buried env reason k destination o disk = (
  (let o' = remove_at k o in record o' { dead_letters = o'.dead_letters + 1 }),
  write_reason env reason destination disk,
  none,
)

-- A DeadLetter that is refused, or that finds no such item, changes nothing; any other moves the
-- file to a name below the dead-letter directory.
abbrev pub Buries : DeadLetterEnv → QueueItem → String → Outbox → Disk → Type 0
Buries env item reason o disk =
    (k : ℕ) × (rest : String) × (content : String) × (index_of o item.path ≡ some k)
    × (disk item.path ≡ some content)
    × (dead_letter env item reason o disk
        ≡ buried env reason k (o.dead_letter_dir <> ("/" <> rest)) o
            (rename_file disk item.path (o.dead_letter_dir <> ("/" <> rest))))

abbrev pub Keeps : DeadLetterEnv → QueueItem → String → Outbox → Disk → Type 0
Keeps env item reason o disk =
    (e : Option OutboxError) × (e ≡ none → index_of o item.path ≡ none)
    × (dead_letter env item reason o disk ≡ (o, disk, e))

abbrev pub answer : Outbox × Disk × Option OutboxError → Option OutboxError
answer p = p.2

module _ (env : DeadLetterEnv) (item : QueueItem) (reason : String) (o : Outbox) (disk : Disk) where
  -- the chosen name is below the dead-letter directory, with or without the time behind it
  name_below :
      (rest : String)
      → (r : String) × (dead_letter_name env disk (o.dead_letter_dir <> ("/" <> rest))
          ≡ o.dead_letter_dir <> ("/" <> r))
  unfolding dead_letter_name
  name_below rest = elim (Option-cases (disk (o.dead_letter_dir <> ("/" <> rest)))) [
    | inl free ↦ (rest, ground arith)
    | inr (old, taken) ↦ (
      rest <> ("." <> env.stamp),
      rw (taken, dead_letter_name)
          (append_assoc o.dead_letter_dir ("/" <> rest) ("." <> env.stamp)
            ∙ ap (◌<>◌ o.dead_letter_dir) (append_assoc "/" rest ("." <> env.stamp))),
    )
  ]

  moves :
      (k : ℕ)
      → index_of o item.path ≡ some k
      → (destination r : String) → destination ≡ o.dead_letter_dir <> ("/" <> r)
      → dead_letter env item reason o disk ≡ move_to env item.path reason k destination o disk
      → Keeps env item reason o disk ⊎ Buries env item reason o disk
  unfolding move_to
  moves k found destination r below same = elim (Bool-cases env.rename_fails) [
    | inl stuck ↦ inl (some move_failed, (λ p. cc), same ∙ rw (stuck, move_to))
    | inr fine ↦ elim (Option-cases (disk item.path)) [
      | inl gone ↦ inl (some move_failed, (λ p. cc), same ∙ rw (fine, gone, move_to))
      | inr (content, there) ↦
          inr (k, r, content, found, there, same ∙ rw (fine, there, below, move_to))
    ]
  ]

  pub dead_letter-cases : Keeps env item reason o disk ⊎ Buries env item reason o disk
  unfolding dead_letter bury
  dead_letter-cases = elim (Option-cases (index_of o item.path)) [
    | inl e ↦ inl (none, (λ p. e), rw (e, dead_letter))
    | inr (k, e) ↦ elim (Option-cases (relative o.root item.path)) [
      | inl outside ↦ inl (some resolve_failed, (λ p. cc), rw (e, outside, dead_letter))
      | inr (rest, inside) ↦ elim (Bool-cases env.mkdir_fails) [
        | inl stuck ↦
            inl (some dead_letter_directory, (λ p. cc), rw (e, inside, stuck, dead_letter))
        | inr made ↦ elim (Bool-cases env.stat_fails) [
          | inl stuck ↦
              inl (some inspect_dead_letter, (λ p. cc), rw (e, inside, made, stuck, dead_letter))
          | inr seen ↦
              let (r, below) = name_below rest in
              moves k e (dead_letter_name env disk (o.dead_letter_dir <> ("/" <> rest))) r below
                (rw (e, inside, made, seen, dead_letter))
        ]
      ]
    ]
  ]

  below_unqueued :
      (q r : String) → IsOutside o → has_path q o.items ≡ true → o.dead_letter_dir <> ("/" <> r) ≢ q
  below_unqueued q r outside queued e = cc (ap (λ (p : String). has_path p o.items) e, outside r)

  renamed_frame :
      (rest q : String)
      → IsOutside o
      → item.path ≢ q
      → has_path q o.items ≡ true
      → rename_file disk item.path (o.dead_letter_dir <> ("/" <> rest)) q ≡ disk q
  renamed_frame rest q outside other queued = ground (
    arith,
    below_unqueued q rest outside queued,
    eq_iff (o.dead_letter_dir <> ("/" <> rest)) q,
    eq_iff item.path q,
  )

  reason_below :
      (rest : String)
      → (o.dead_letter_dir <> ("/" <> rest)) <> ".reason.json"
        ≡ o.dead_letter_dir <> ("/" <> (rest <> ".reason.json"))
  reason_below rest =
      append_assoc o.dead_letter_dir ("/" <> rest) ".reason.json"
      ∙ ap (◌<>◌ o.dead_letter_dir) (append_assoc "/" rest ".reason.json")

  -- the files that the move and the reason file touch are not queued, but for the item's own
  moved_frame :
      (rest q : String)
      → IsOutside o
      → disk q ≢ none
      → disk env.write.temp_path ≡ none
      → item.path ≢ q
      → has_path q o.items ≡ true
      → let destination = o.dead_letter_dir <> ("/" <> rest) in
        write_reason env reason destination (rename_file disk item.path destination) q ≡ disk q
  unfolding write_reason
  moved_frame rest q outside there temp other queued = elim (Option-cases (env.metadata reason)) [
    | inl e ↦ rw (e, write_reason) (renamed_frame rest q outside other queued)
    | inr (text, e) ↦
        rw (e, write_reason)
          (atomic_write-frame env.write ((o.dead_letter_dir <> ("/" <> rest)) <> ".reason.json")
              (text <> "\n") (rename_file disk item.path (o.dead_letter_dir <> ("/" <> rest))) q
              (λ p.
                below_unqueued q (rest <> ".reason.json") outside queued
                  (sym (reason_below rest) ∙ p))
              (λ p. there (ap disk (sym p) ∙ temp))
            ∙ renamed_frame rest q outside other queued)
  ]

  -- DeadLetter keeps a consistent outbox consistent, on every branch, if no queued file lies
  -- below the dead-letter directory and the temporary name for the reason file is free.
  pub dead_letter-IsConsistent :
      IsConsistent o disk
      → IsOutside o
      → disk env.write.temp_path ≡ none
      → let p = dead_letter env item reason o disk in IsConsistent p.0 p.1
  dead_letter-IsConsistent ok outside temp = elim dead_letter-cases [
    | inl (e, _, same) ↦ rw same ok
    | inr (k, rest, content, found, there, same) ↦
        let (f, at, named) = index_of-found o item.path k found in
        let c =
          remove_at-IsConsistent o disk
            (write_reason env reason (o.dead_letter_dir <> ("/" <> rest))
              (rename_file disk item.path (o.dead_letter_dir <> ("/" <> rest))))
            f k ok at
            (λ q other queued.
              moved_frame rest q outside (has_path-stored disk q o.items ok.stored queued) temp
                (λ e. other (named ∙ e)) queued) in
        rw same (record {
          total = c.total;
          fits = c.fits;
          known_exact = c.known_exact;
          distinct = c.distinct;
          stored = c.stored;
        })
  ]
