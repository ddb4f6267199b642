-- ===== src/Agent/Outbox/Queue.antt =====
-- internal/agent/outbox.go: an abstract queue of paths beside the calls of the outbox.
use dayz_behaviour.Prelude.{
  ℕ, zero, suc, ◌+◌, ◌≡◌, refl, sym, ap, subst, ◌∙◌, Bool, true, false, Option, none, some, List,
  [], ◌∷◌, ◌++◌, String, arith, if◌then◌else◌, Bool-cases, Option-cases, inl, inr,
}
use dayz_behaviour.Prelude.Text.{str_eq}
use dayz_behaviour.Disk.{Disk}
use dayz_behaviour.Schema.{Batch}
use dayz_behaviour.Agent.Outbox.{
  Outbox, QueuedFile, QueueItem, OutboxError, PutEnv, DeadLetterEnv, is_absent, put, remove,
  dead_letter, batch_path, index_of, index_from, remove_nth, remove_at, drop_item,
}
use dayz_behaviour.Agent.Outbox.Items.{has_path, index_from-found}
use dayz_behaviour.Agent.Outbox.Invariant.{
  IsConsistent, IsFreshTemp, Fits, put-IsConsistent, remove-IsConsistent, index_of-found,
}
use dayz_behaviour.Agent.Outbox.DeadLetter.{IsOutside, dead_letter-cases, dead_letter-IsConsistent}
use dayz_behaviour.Agent.Outbox.Cases.{new_file}
use dayz_behaviour.Agent.Outbox.Put.{put-IsQueued, put_error_unchanged}

-- the abstract queue: its state, its two operations, and what one does
abbrev pub paths : List QueuedFile → List String
paths [] = []
paths (f ∷ fs) = f.path ∷ paths fs

pub data QueueOp : Type 0 where
  arrive leave : String → QueueOp

abbrev pub without : String → List String → List String
without p [] = []
without p (q ∷ qs) = if str_eq q p then qs else q ∷ without p qs

-- an operation that was refused leaves the queue as it is
abbrev pub step : QueueOp → Bool → List String → List String
step op false q = q
step (arrive p) true q = q ++ p ∷ []
step (leave p) true q = without p q

-- the calls of the outbox
pub data Call : Type 0 where
  put_call : PutEnv → Batch → Call
  remove_call : Bool → QueueItem → Call
  dead_letter_call : DeadLetterEnv → QueueItem → String → Call

abbrev pub result : Call → Outbox → Disk → Outbox × Disk × Option OutboxError
result (put_call env batch) o disk = put env batch o disk
result (remove_call fails item) o disk = remove fails item o disk
result (dead_letter_call env item reason) o disk = dead_letter env item reason o disk

abbrev pub op_of : Call → Outbox → QueueOp
op_of (put_call env batch) o = arrive (batch_path o batch)
op_of (remove_call fails item) o = leave item.path
op_of (dead_letter_call env item reason) o = leave item.path

-- what the names of temporary files and the sizes must keep to
abbrev pub IsSafe : Call → Outbox → Disk → Type 0
IsSafe (put_call env batch) o disk =
    IsFreshTemp env.write (batch_path o batch) disk × Fits env batch o
IsSafe (remove_call fails item) o disk = Unit
IsSafe (dead_letter_call env item reason) o disk = IsOutside o × (disk env.write.temp_path ≡ none)

without-absent :
    (p : String) (fs : List QueuedFile) → has_path p fs ≡ false → without p (paths fs) ≡ paths fs
without-absent p [] h = refl
without-absent p (f ∷ fs) h = elim (Bool-cases (str_eq f.path p)) [
  | inl e ↦ absurd (ground (arith, e, h))
  | inr e ↦ rw (e) (ap (◌∷◌ f.path) (without-absent p fs (ground (arith, h))))
]

paths-append :
    (fs : List QueuedFile) (f : QueuedFile) → paths (fs ++ f ∷ []) ≡ paths fs ++ f.path ∷ []
paths-append [] f = refl
paths-append (g ∷ fs) f = ap (◌∷◌ g.path) (paths-append fs f)

paths-remove_nth :
    (p : String) (i n : ℕ) (fs : List QueuedFile)
    → index_from i p fs ≡ some (i + n)
    → paths (remove_nth n fs) ≡ without p (paths fs)
unfolding index_from remove_nth
paths-remove_nth p i n [] h = absurd (cc (h))
paths-remove_nth p i n (f ∷ fs) h = elim (Bool-cases (str_eq f.path p)) [
  | inl e ↦ rw (let z : n ≡ 0 = ground (arith, h, e) in z, e) refl
  | inr e ↦ further n (ground (arith, h, e)) (λ k. paths-remove_nth p (i + 1) k fs) e
]
  where
    further :
        (n : ℕ)
        → index_from (i + 1) p fs ≡ some (i + n)
        → ((k : ℕ)
            → index_from (i + 1) p fs ≡ some (i + 1 + k)
            → paths (remove_nth k fs) ≡ without p (paths fs))
        → str_eq f.path p ≡ false
        → paths (remove_nth n (f ∷ fs)) ≡ without p (paths (f ∷ fs))
    further zero h rest e =
        let (g, low, at, named) = index_from-found (i + 1) p fs (i + 0) h in
        absurd (omega (arith, low))
    further (suc k) h rest e = rw (e) (ap (◌∷◌ f.path) (rest k (h ∙ ap some (omega arith))))

index_from-none :
    (p : String) (i : ℕ) (fs : List QueuedFile) → index_from i p fs ≡ none → has_path p fs ≡ false
unfolding index_from
index_from-none p i [] h = refl
index_from-none p i (f ∷ fs) h = elim (Bool-cases (str_eq f.path p)) [
  | inl e ↦ absurd (ground (arith, h, e))
  | inr e ↦ rw (e) (index_from-none p (i + 1) fs (ground (arith, h, e)))
]

module _ (o : Outbox) (disk : Disk) (ok : IsConsistent o disk) (p : String) where
  missing-unchanged : index_of o p ≡ none → paths o.items ≡ without p (paths o.items)
  unfolding index_of
  missing-unchanged h = elim (Bool-cases (o.known p)) [
    | inl k ↦ sym (without-absent p o.items (index_from-none p 0 o.items (ground (arith, h, k))))
    | inr k ↦ sym (without-absent p o.items (sym (ok.known_exact p) ∙ k))
  ]

  removed-without :
      (k : ℕ) → index_of o p ≡ some k → paths (remove_at k o).items ≡ without p (paths o.items)
  unfolding index_of remove_at drop_item
  removed-without k h =
      let (f, at, named) = index_of-found o p k h in
      rw (at) (paths-remove_nth p 0 k o.items (ground (arith, h)))

-- what a call does to the queue is what the abstract operation does, if the call returns no error
abbrev Follows : QueueOp → Outbox → Outbox × Disk × Option OutboxError → Type 0
Follows op o r = paths r.0.items ≡ step op (is_absent r.2) (paths o.items)

put-Follows :
    (env : PutEnv) (batch : Batch) (o : Outbox) (disk : Disk)
    → Follows (arrive (batch_path o batch)) o (put env batch o disk)
put-Follows env batch o disk = elim (Option-cases (put env batch o disk).2) [
  | inl h ↦
      let (text, queued) = put-IsQueued env batch o disk h in
      subst
        (λ (b : Bool).
          paths (put env batch o disk).0.items
          ≡ step (arrive (batch_path o batch)) b (paths o.items))
        (sym (ap is_absent h))
        (ap paths queued.appended ∙ paths-append o.items (new_file env batch o text))
  | inr (e, h) ↦
      subst
        (λ (b : Bool).
          paths (put env batch o disk).0.items
          ≡ step (arrive (batch_path o batch)) b (paths o.items))
        (sym (ap is_absent h))
        (ap (λ (x : Outbox). paths x.items) (put_error_unchanged env batch o disk e h))
]

remove-Follows :
    (fails : Bool) (item : QueueItem) (o : Outbox) (disk : Disk)
    → IsConsistent o disk
    → Follows (leave item.path) o (remove fails item o disk)
unfolding remove
remove-Follows fails item o disk ok = elim (Option-cases (index_of o item.path)) [
  | inl gone ↦ rw (gone, remove) (missing-unchanged o disk ok item.path gone)
  | inr (k, found) ↦ elim (Bool-cases fails) [
    | inl stuck ↦ rw (found, stuck, remove) refl
    | inr fine ↦ rw (found, fine, remove) (removed-without o disk ok item.path k found)
  ]
]

dead_letter-Follows :
    (env : DeadLetterEnv) (item : QueueItem) (reason : String) (o : Outbox) (disk : Disk)
    → IsConsistent o disk
    → Follows (leave item.path) o (dead_letter env item reason o disk)
dead_letter-Follows env item reason o disk ok = elim (dead_letter-cases env item reason o disk) [
  | inl (some e, missing, same) ↦ rw (same) refl
  | inl (none, missing, same) ↦ rw (same) (missing-unchanged o disk ok item.path (missing refl))
  | inr (k, rest, content, found, there, same) ↦
      rw (same) (removed-without o disk ok item.path k found)
]

call-Follows :
    (c : Call) (o : Outbox) (disk : Disk)
    → IsConsistent o disk
    → Follows (op_of c o) o (result c o disk)
call-Follows (put_call env batch) o disk ok = put-Follows env batch o disk
call-Follows (remove_call fails item) o disk ok = remove-Follows fails item o disk ok
call-Follows (dead_letter_call env item reason) o disk ok =
    dead_letter-Follows env item reason o disk ok

call-IsConsistent :
    (c : Call) (o : Outbox) (disk : Disk)
    → IsConsistent o disk
    → IsSafe c o disk
    → let r = result c o disk in IsConsistent r.0 r.1
call-IsConsistent (put_call env batch) o disk ok safe =
    put-IsConsistent env batch o disk ok safe.0 safe.1
call-IsConsistent (remove_call fails item) o disk ok safe = remove-IsConsistent fails item o disk ok
call-IsConsistent (dead_letter_call env item reason) o disk ok safe =
    dead_letter-IsConsistent env item reason o disk ok safe.0 safe.1

-- the calls of a run, one after the other, and the operations that they stand for
abbrev pub run_calls : List Call → Outbox → Disk → Outbox × Disk
run_calls [] o disk = (o, disk)
run_calls (c ∷ cs) o disk = let r = result c o disk in run_calls cs r.0 r.1

abbrev pub AllSafe : List Call → Outbox → Disk → Type 0
AllSafe [] o disk = Unit
AllSafe (c ∷ cs) o disk = IsSafe c o disk × (let r = result c o disk in AllSafe cs r.0 r.1)

abbrev pub run_queue : List Call → Outbox → Disk → List String → List String
run_queue [] o disk q = q
run_queue (c ∷ cs) o disk q =
    let r = result c o disk in run_queue cs r.0 r.1 (step (op_of c o) (is_absent r.2) q)

-- Through any sequence of Put, Remove and DeadLetter calls on a consistent outbox, the queued
-- paths are those of an abstract first-in-first-out queue, in which a call that returns no error
-- appends its path or takes its path out and a call that returns an error does nothing, and the
-- outbox stays consistent. The temporary names must be new, the totals must fit into an int64 and
-- no queued file may lie below the dead-letter directory.
pub run_calls-paths :
    (cs : List Call) (o : Outbox) (disk : Disk)
    → IsConsistent o disk
    → AllSafe cs o disk
    → let r = run_calls cs o disk in
      (paths r.0.items ≡ run_queue cs o disk (paths o.items)) × IsConsistent r.0 r.1
run_calls-paths [] o disk ok safe = (refl, ok)
run_calls-paths (c ∷ cs) o disk ok safe =
    let r = result c o disk in
    let rest = run_calls-paths cs r.0 r.1 (call-IsConsistent c o disk ok safe.0) safe.1 in
    (rest.0 ∙ ap (run_queue cs r.0 r.1) (call-Follows c o disk ok), rest.1)
