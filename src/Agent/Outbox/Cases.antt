-- ===== src/Agent/Outbox/Cases.antt =====
-- internal/agent/outbox.go: the branches of Put.
use dayz_behaviour.Prelude.{
  ◌≡◌, ◌≢◌, false, none, some, String, arith, if◌then◌else◌, ◌⊎◌, inl, inr, Bool-cases,
  Option-cases,
}
use dayz_behaviour.Prelude.Text.{str_eq, eq_iff, len, ◌<>◌}
use dayz_behaviour.Disk.{Disk, WriteError, atomic_write}
use dayz_behaviour.Schema.{Batch}
use dayz_behaviour.Agent.Outbox.{
  Outbox, QueuedFile, PutEnv, OutboxError, put, put_content, finish_put, batch_path, has_no_room,
  server_id_mismatch, marshal_failed, inspect_failed, already_stored, batch_conflict, queue_full,
  write_failed,
}

-- the queue entry of a batch that Put writes
abbrev pub new_file : PutEnv → Batch → Outbox → String → QueuedFile
new_file env batch o text = record {
  path = batch_path o batch;
  size = len (text <> "\n");
  mod_time = env.now;
}

abbrev pub Refuses : PutEnv → Batch → Outbox → Disk → Type 0
Refuses env batch o disk =
    (e : OutboxError) × ((x : WriteError) → e ≢ write_failed x)
    × (put env batch o disk ≡ (o, disk, some e))

abbrev pub Writes : PutEnv → Batch → Outbox → Disk → Type 0
Writes env batch o disk =
    (text : String) × (env.marshal batch ≡ some text)
    × (batch.server_id ≡ o.server_id)
    × (disk (batch_path o batch) ≡ none)
    × (has_no_room o (len (text <> "\n")) ≡ false)
    × (put env batch o disk
        ≡ finish_put (new_file env batch o text) o
            (atomic_write env.write (batch_path o batch) (text <> "\n") disk))

module _ (env : PutEnv) (batch : Batch) (o : Outbox) (disk : Disk) where
  pub put-cases : Refuses env batch o disk ⊎ Writes env batch o disk
  unfolding put put_content
  put-cases = elim (Bool-cases (str_eq batch.server_id o.server_id)) [
    | inr other ↦ inl (server_id_mismatch, (λ x p. cc), rw other)
    | inl mine ↦ elim (Option-cases (env.marshal batch)) [
      | inl bad ↦ inl (marshal_failed, (λ x p. cc), rw (mine, bad))
      | inr (text, coded) ↦ elim (Bool-cases env.read_fails) [
        | inl bad ↦ inl (inspect_failed, (λ x p. cc), rw (mine, coded, bad))
        | inr fine ↦ elim (Option-cases (disk (batch_path o batch))) [
          | inr (old, there) ↦ inl (
            if str_eq old (text <> "\n") then already_stored else batch_conflict,
            (λ x p. ground arith),
            rw (mine, coded, fine, there),
          )
          | inl absent ↦ elim (Bool-cases (has_no_room o (len (text <> "\n")))) [
            | inl full ↦ inl (queue_full, (λ x p. cc), rw (mine, coded, fine, absent, full))
            | inr free ↦ inr (
              text,
              coded,
              (eq_iff batch.server_id o.server_id).0 mine,
              absent,
              free,
              rw (mine, coded, fine, absent, free),
            )
          ]
        ]
      ]
    ]
  ]
