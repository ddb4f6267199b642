-- ===== src/Agent/Outbox/Put.antt =====
-- internal/agent/outbox.go: the results of Put, its limits and its answers to a repeated batch.
use dayz_behaviour.Prelude.{
  ◌+◌, ◌≤◌, ◌<◌, ◌^◌, ◌≡◌, refl, ap, ◌∙◌, true, false, Option, none, some, [], ◌∷◌, ◌++◌, String,
  arith, length, length-append, if◌then◌else◌, inl, inr,
}
use dayz_behaviour.Prelude.Int.{pos}
use dayz_behaviour.Prelude.Words.{add64-pos}
use dayz_behaviour.Prelude.Text.{str_eq, eq_iff, len, ◌<>◌}
use dayz_behaviour.Disk.{Disk, WriteError, atomic_write, sync_batch_directory}
use dayz_behaviour.Disk.Atomic.{atomic_write-ok, atomic_write-unsynced}
use dayz_behaviour.Schema.{Batch}
use dayz_behaviour.Agent.Outbox.{
  Outbox, QueuedFile, PutEnv, OutboxError, put, put_content, finish_put, enqueue, signal,
  has_no_room, batch_path, already_stored, batch_conflict, write_failed, index_of,
}
use dayz_behaviour.Agent.Outbox.Items.{sum_sizes, sum_sizes-append}
use dayz_behaviour.Agent.Outbox.Cases.{new_file, put-cases}
use dayz_behaviour.Agent.Outbox.Invariant.{IsConsistent, Fits, not_queued}

-- The configured limits: max_batches files and max_bytes bytes.
pub record IsWithinLimits (o : Outbox) : Type 0 where
  pub batches : length o.items ≤ o.max_batches
  pub bytes : sum_sizes o.items ≤ o.max_bytes

-- what a Put that succeeded has done
pub record IsQueued (env : PutEnv) (batch : Batch) (text : String) (o o' : Outbox) (disk' : Disk)
    : Type 0 where
  pub encoded : env.marshal batch ≡ some text
  pub written : disk' (batch_path o batch) ≡ some (text <> "\n")
  pub appended : o'.items ≡ o.items ++ new_file env batch o text ∷ []
  pub noted : o'.known (batch_path o batch) ≡ true
  pub woken : o'.wake ≡ true

finish_put-ok :
    (f : QueuedFile) (o : Outbox) (r : Disk × Option WriteError)
    → (finish_put f o r).2 ≡ none
    → (r.1 ≡ none) × (finish_put f o r ≡ (enqueue f o, r.0, none))
unfolding finish_put
finish_put-ok f o (disk, some e) h = absurd (cc)
finish_put-ok f o (disk, none) h = (refl, refl)

enqueue-IsWithinLimits :
    (f : QueuedFile) (o : Outbox)
    → o.bytes ≡ pos (sum_sizes o.items)
    → sum_sizes o.items + f.size < 2 ^ 63
    → has_no_room o f.size ≡ false
    → IsWithinLimits (enqueue f o)
unfolding enqueue signal has_no_room
enqueue-IsWithinLimits f o total fits free =
    let room = rw (total, add64-pos (sum_sizes o.items) f.size fits) at free in
    record {
      batches = ground (arith, length-append o.items (f ∷ []));
      bytes = ground (arith, room, sum_sizes-append o.items f);
    }

finish_put-err :
    (f : QueuedFile) (o : Outbox) (r : Disk × Option WriteError) (e : OutboxError)
    → (finish_put f o r).2 ≡ some e
    → ((finish_put f o r).0 ≡ o) × ((finish_put f o r).1 ≡ r.0)
unfolding finish_put
finish_put-err f o (disk, some x) e h = (refl, refl)
finish_put-err f o (disk, none) e h = absurd (cc)

finish_put-write_failed :
    (f : QueuedFile) (o : Outbox) (r : Disk × Option WriteError) (x : WriteError)
    → (finish_put f o r).2 ≡ some (write_failed x)
    → r.1 ≡ some x
unfolding finish_put
finish_put-write_failed f o (disk, some y) x h = cc
finish_put-write_failed f o (disk, none) x h = absurd (cc)

module _ (env : PutEnv) (batch : Batch) (o : Outbox) (disk : Disk) where
  abbrev written_by : String → Disk × Option WriteError
  written_by text = atomic_write env.write (batch_path o batch) (text <> "\n") disk

  abbrev Stores : Type 0
  Stores =
      (text : String) × (env.marshal batch ≡ some text)
      × (batch.server_id ≡ o.server_id)
      × (has_no_room o (len (text <> "\n")) ≡ false)
      × ((written_by text).1 ≡ none)
      × (put env batch o disk ≡ (enqueue (new_file env batch o text) o, (written_by text).0, none))

  put-Stores : (put env batch o disk).2 ≡ none → Stores
  put-Stores h = elim (put-cases env batch o disk) [
    | inl (e, _, same) ↦ absurd (cc (ap (λ (p : Outbox × Disk × Option OutboxError). p.2) same, h))
    | inr (text, coded, mine, absent, free, same) ↦
        let (ok, stored) =
          finish_put-ok (new_file env batch o text) o (written_by text) (rw same at h) in
        (text, coded, mine, free, ok, same ∙ stored)
  ]

  -- A Put that returns an error leaves the outbox as it was.
  pub put_error_unchanged :
      (e : OutboxError) → (put env batch o disk).2 ≡ some e → (put env batch o disk).0 ≡ o
  put_error_unchanged e h = elim (put-cases env batch o disk) [
    | inl (e', _, same) ↦ ap (λ (p : Outbox × Disk × Option OutboxError). p.0) same
    | inr (text, coded, mine, absent, free, same) ↦
        rw same (finish_put-err (new_file env batch o text) o (written_by text) e (rw same at h)).0
  ]

  -- A Put that returns no error has encoded the batch, written the encoding and a newline to the
  -- batch file, appended that file to the queue, noted its path as known and set the wake token.
  pub put-IsQueued :
      (put env batch o disk).2 ≡ none
      → (text : String) × IsQueued env batch text o
          (put env batch o disk).0
          (put env batch o disk).1
  unfolding enqueue signal
  put-IsQueued h =
      let (text, coded, mine, free, ok, same) = put-Stores h in
      (
        text,
        rw same (record {
          encoded = coded;
          written = atomic_write-ok env.write (batch_path o batch) (text <> "\n") disk ok;
          appended = refl;
          noted = ground (arith, eq_iff (batch_path o batch) (batch_path o batch));
          woken = refl;
        }),
      )

  -- After a Put that returned no error on a consistent outbox whose total fits into an int64, the
  -- queue has at most max_batches files and at most max_bytes bytes.
  pub put-IsWithinLimits :
      IsConsistent o disk
      → Fits env batch o
      → (put env batch o disk).2 ≡ none
      → IsWithinLimits (put env batch o disk).0
  put-IsWithinLimits ok fit h =
      let (text, coded, mine, free, wrote, same) = put-Stores h in
      rw same
        (enqueue-IsWithinLimits (new_file env batch o text) o ok.total (fit.room text coded) free)

-- Put meets a batch file that is there already.
put_existing :
    (env : PutEnv) (batch : Batch) (o : Outbox) (disk : Disk) (text old : String)
    → batch.server_id ≡ o.server_id
    → env.marshal batch ≡ some text
    → env.read_fails ≡ false
    → disk (batch_path o batch) ≡ some old
    → put env batch o disk
      ≡ (o, disk, some (if str_eq old (text <> "\n") then already_stored else batch_conflict))
unfolding put put_content
put_existing env batch o disk text old mine coded works there =
    rw ((eq_iff batch.server_id o.server_id).1 mine, coded, works, there)

index_of-absent : (o : Outbox) (q : String) → o.known q ≡ false → index_of o q ≡ none
unfolding index_of
index_of-absent o q h = rw h

module _ (env env' : PutEnv) (batch : Batch) (o : Outbox) (disk : Disk) (text text' : String) where
  -- After a Put that returned no error, a second Put of the batch whose files can be read answers
  -- already stored if the encodings agree and conflict if not, and in both cases changes neither
  -- the queue nor the disk.
  pub put-put :
      env.marshal batch ≡ some text
      → env'.marshal batch ≡ some text'
      → env'.read_fails ≡ false
      → (put env batch o disk).2 ≡ none
      → let p = put env batch o disk in
        put env' batch p.0 p.1 ≡ (
          p.0,
          p.1,
          some (if str_eq (text <> "\n") (text' <> "\n") then already_stored else batch_conflict),
        )
  unfolding enqueue signal batch_path
  put-put coded coded' works h =
      let (t, c, mine, free, ok, same) = put-Stores env batch o disk h in
      let stored = atomic_write-ok env.write (batch_path o batch) (t <> "\n") disk ok in
      let e : t ≡ text = cc (c, coded) in
      rw same (
        rw (← e) (
          put_existing env' batch (enqueue (new_file env batch o t) o)
            (written_by env batch o disk t).0 text' (t <> "\n") mine coded' works stored))

module _ (env env' : PutEnv) (batch : Batch) (o : Outbox) (disk : Disk) (text : String) where
  -- On a consistent outbox, a Put that fails at the sync of the directory leaves the batch file
  -- on the disk and out of the queue: a later Put of the same encoding is answered as already
  -- stored, queues nothing and changes nothing.
  pub unsynced_put-put :
      IsConsistent o disk
      → env.marshal batch ≡ some text
      → env'.marshal batch ≡ some text
      → env'.read_fails ≡ false
      → (put env batch o disk).2 ≡ some (write_failed sync_batch_directory)
      → let p = put env batch o disk in
        (put env' batch p.0 p.1 ≡ (p.0, p.1, some already_stored))
        × (index_of p.0 (batch_path o batch) ≡ none)
  unsynced_put-put ok coded coded' works h = elim (put-cases env batch o disk) [
    | inl (e, other, same) ↦ absurd (
        other sync_batch_directory
          (cc (ap (λ (p : Outbox × Disk × Option OutboxError). p.2) same, h)))
    | inr (t, c, mine, absent, free, same) ↦
        let r = written_by env batch o disk t in
        let f = new_file env batch o t in
        let failed = finish_put-write_failed f o r sync_batch_directory (rw same at h) in
        let stored = atomic_write-unsynced env.write (batch_path o batch) (t <> "\n") disk failed in
        let e : t ≡ text = cc (c, coded) in
        let kept = finish_put-err f o r (write_failed sync_batch_directory) (rw same at h) in
        rw (same, kept.0, kept.1)
          (
            rw ((eq_iff (t <> "\n") (text <> "\n")).1 (ap (λ (s : String). s <> "\n") e)) at
                (put_existing env' batch o r.0 text (t <> "\n") mine coded' works stored),
            index_of-absent o (batch_path o batch) (
                ok.known_exact (batch_path o batch)
                ∙ not_queued o disk (batch_path o batch) ok absent),
          )
  ]
