-- ===== src/Agent/Uploader/Loop.antt =====
-- internal/agent/uploader.go: the outbox and the disk over the rounds of Run.
use dayz_behaviour.Prelude.{
  ◌≡◌, refl, subst, ◌⊎◌, inl, inr, List, [], ◌∷◌, Bool-cases, Option-cases,
}
use dayz_behaviour.Prelude.Int.{ℤ}
use dayz_behaviour.Agent.Outbox.Invariant.{IsConsistent}
use dayz_behaviour.Agent.Uploader.{
  Agent, Reasons, RetryConfig, RoundEnv, RunState, Round, stop, continue, Waited, cancelled, woken,
  elapsed, Uploaded, UploadError, consume, failed_round, idle_round, after_upload, round, run,
  upload_next,
}
use dayz_behaviour.Agent.Uploader.Keeps.{IsCalm, upload_next-IsConsistent}

abbrev HasConsistent : RunState → Type 0
HasConsistent s = IsConsistent s.agent.outbox s.agent.disk

-- each round that the loop reaches begins where a dead letter could be written
abbrev pub AllCalm : Reasons → RetryConfig → List RoundEnv → RunState → Type 0
AllCalm reasons config [] s = Unit
AllCalm reasons config (env ∷ envs) s =
    IsCalm env.upload s.agent
    × ((t : RunState) → round reasons config env s ≡ continue t → AllCalm reasons config envs t)

-- the state after a round, whether the loop goes on or not
abbrev Ends : Round → Type 0
Ends (stop t) = HasConsistent t
Ends (continue t) = HasConsistent t

IsConsistent-consume :
    (a : Agent) → IsConsistent a.outbox a.disk → IsConsistent (consume a).outbox (consume a).disk
unfolding consume
IsConsistent-consume a ok = record {
  total = ok.total;
  fits = ok.fits;
  known_exact = ok.known_exact;
  distinct = ok.distinct;
  stored = ok.stored;
}

module _ (config : RetryConfig) (env : RoundEnv) where
  Waited-cases : (w : Waited) → (w ≡ cancelled) ⊎ ((w ≡ woken) ⊎ (w ≡ elapsed))
  Waited-cases cancelled = inl refl
  Waited-cases woken = inr (inl refl)
  Waited-cases elapsed = inr (inr refl)

  failed_round-Ends :
      (e : UploadError) (a : Agent) (delay : ℤ)
      → IsConsistent a.outbox a.disk
      → Ends (failed_round config env e a delay)
  unfolding failed_round
  failed_round-Ends e a delay ok = elim (Waited-cases env.waited) [
    | inl w ↦ rw (w, failed_round) ok
    | inr (inl w) ↦ rw (w, failed_round) ok
    | inr (inr w) ↦ rw (w, failed_round) ok
  ]

  idle_round-Ends : (a : Agent) → IsConsistent a.outbox a.disk → Ends (idle_round config env a)
  unfolding idle_round
  idle_round-Ends a ok = elim (Waited-cases env.waited) [
    | inl w ↦ rw (w, idle_round) ok
    | inr (inl w) ↦ rw (w, idle_round) (IsConsistent-consume a ok)
    | inr (inr w) ↦ rw (w, idle_round) ok
  ]

  after_upload-Ends :
      (delay : ℤ) (r : Uploaded)
      → IsConsistent r.0.outbox r.0.disk
      → Ends (after_upload config env delay r)
  unfolding after_upload
  after_upload-Ends delay (a, processed, err) ok = elim (Bool-cases env.context_done) [
    | inl over ↦ rw (over, after_upload) ok
    | inr runs ↦ elim (Option-cases err) [
      | inr (e, failed) ↦ rw (runs, failed, after_upload) (failed_round-Ends e a delay ok)
      | inl fine ↦ elim (Bool-cases processed) [
        | inl more ↦ rw (runs, fine, more, after_upload) ok
        | inr idle ↦ rw (runs, fine, idle, after_upload) (idle_round-Ends a ok)
      ]
    ]
  ]

Round-cases : (r : Round) → ((t : RunState) × (r ≡ stop t)) ⊎ ((t : RunState) × (r ≡ continue t))
Round-cases (stop t) = inl (t, refl)
Round-cases (continue t) = inr (t, refl)

module _ (reasons : Reasons) (config : RetryConfig) where
  round-Ends :
      (env : RoundEnv) (s : RunState)
      → HasConsistent s
      → IsCalm env.upload s.agent
      → Ends (round reasons config env s)
  unfolding round
  round-Ends env s ok calm =
      after_upload-Ends config env s.retry_delay (upload_next reasons env.upload s.agent)
        (upload_next-IsConsistent reasons env.upload s.agent ok calm)

  -- Through any rounds of Run, whatever the upstream answers and whatever fails, a consistent
  -- outbox stays consistent, if at the start of each round that the loop reaches no queued file
  -- lies below the dead-letter directory and the temporary name for the reason file is free.
  pub run-IsConsistent :
      (envs : List RoundEnv) (s : RunState)
      → IsConsistent s.agent.outbox s.agent.disk
      → AllCalm reasons config envs s
      → let t = run reasons config envs s in IsConsistent t.agent.outbox t.agent.disk
  unfolding run
  run-IsConsistent [] s ok calm = ok
  run-IsConsistent (env ∷ envs) s ok calm =
      let kept = round-Ends env s ok calm.0 in
      elim (Round-cases (round reasons config env s)) [
        | inl (t, over) ↦ let ok' : HasConsistent t = subst Ends over kept in rw (over, run) ok'
        | inr (t, on) ↦
            let ok' : HasConsistent t = subst Ends on kept in
            rw (on, run) (run-IsConsistent envs t ok' (calm.1 t on))
      ]
