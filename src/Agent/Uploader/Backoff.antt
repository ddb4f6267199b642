-- ===== src/Agent/Uploader/Backoff.antt =====
-- The retry delay of the upload loop.
use dayz_behaviour.Prelude.{
  ℕ, zero, suc, ◌+◌, ◌*◌, ◌^◌, ◌≤◌, ◌<◌, ◌≡◌, refl, ap, ◌∙◌, false, some, List, [], ◌∷◌, arith,
  Bool-cases, Option-cases, inl, inr, min,
}
use native.Mathlib.Nat.{pow-suc}
use dayz_behaviour.Prelude.Int.{ℤ, pos}
use dayz_behaviour.Prelude.Words.{add64-pos}
use dayz_behaviour.Agent.Uploader.{
  Agent, Reasons, RetryConfig, RoundEnv, RunState, Round, Uploaded, Waited, UploadError, cancelled,
  woken, elapsed, stop, continue, double_delay, failed_round, idle_round, after_upload, upload_next,
  round, run,
}

-- A configured pair of delays in nanoseconds: the minimum does not pass the maximum, and twice the
-- maximum fits into an int64.
pub record HasBounds (config : RetryConfig) (low high : ℕ) : Type 0 where
  pub minimum : config.minimum_retry ≡ pos low
  pub maximum : config.maximum_retry ≡ pos high
  pub ordered : low ≤ high
  pub fits : high + high < 2 ^ 63

min_double : (p high : ℕ) → min (min p high + min p high) high ≡ min (p + p) high
min_double p high = omega arith

doubled : (low n : ℕ) → low * 2 ^ n + low * 2 ^ n ≡ low * 2 ^ suc n
doubled low n = rw pow-suc (omega arith)

module _ (config : RetryConfig) (low high : ℕ) (bounds : HasBounds config low high) where
  pub double_delay_lem : (d : ℕ) → d ≤ high → double_delay config (pos d) ≡ pos (min (d + d) high)
  unfolding double_delay
  double_delay_lem d small =
      rw (add64-pos d d (omega (arith, bounds.fits)), bounds.maximum) (ground arith)

  -- the delay lies between the two bounds
  abbrev pub IsBetween : ℤ → Type 0
  IsBetween delay = (d : ℕ) × (delay ≡ pos d) × (low ≤ d) × (d ≤ high)

  abbrev pub state_of : Round → RunState
  state_of (stop s) = s
  state_of (continue s) = s

  double_delay-IsBetween : (delay : ℤ) → IsBetween delay → IsBetween (double_delay config delay)
  double_delay-IsBetween delay (d, e, above, below) = (
    min (d + d) high,
    rw e (double_delay_lem d below),
    omega (arith, bounds.ordered),
    omega arith,
  )

  minimum-IsBetween : IsBetween config.minimum_retry
  minimum-IsBetween = (low, bounds.minimum, omega arith, bounds.ordered)

  failed_round-IsBetween :
      (env : RoundEnv) (e : UploadError) (a : Agent) (delay : ℤ) (w : Waited)
      → env.waited ≡ w
      → IsBetween delay
      → IsBetween (state_of (failed_round config env e a delay)).retry_delay
  unfolding failed_round
  failed_round-IsBetween env e a delay cancelled h ok = rw (h, failed_round) ok
  failed_round-IsBetween env e a delay woken h ok =
      rw (h, failed_round) (double_delay-IsBetween delay ok)
  failed_round-IsBetween env e a delay elapsed h ok =
      rw (h, failed_round) (double_delay-IsBetween delay ok)

  idle_round-IsBetween :
      (env : RoundEnv) (a : Agent) (w : Waited)
      → env.waited ≡ w
      → IsBetween (state_of (idle_round config env a)).retry_delay
  unfolding idle_round
  idle_round-IsBetween env a cancelled h = rw (h, idle_round) minimum-IsBetween
  idle_round-IsBetween env a woken h = rw (h, idle_round) minimum-IsBetween
  idle_round-IsBetween env a elapsed h = rw (h, idle_round) minimum-IsBetween

  after_upload-IsBetween :
      (env : RoundEnv) (delay : ℤ) (r : Uploaded)
      → IsBetween delay
      → IsBetween (state_of (after_upload config env delay r)).retry_delay
  unfolding after_upload
  after_upload-IsBetween env delay (a, processed, err) ok = elim (Bool-cases env.context_done) [
    | inl done ↦ rw (done, after_upload) ok
    | inr going ↦ elim (Option-cases err) [
      | inr (e, failed) ↦
          rw (going, failed, after_upload) (failed_round-IsBetween env e a delay env.waited refl ok)
      | inl fine ↦ elim (Bool-cases processed) [
        | inl sent ↦ rw (going, fine, sent, after_upload) minimum-IsBetween
        | inr empty ↦
            rw (going, fine, empty, after_upload) (idle_round-IsBetween env a env.waited refl)
      ]
    ]
  ]

  round-IsBetween :
      (reasons : Reasons) (env : RoundEnv) (s : RunState)
      → IsBetween s.retry_delay
      → IsBetween (state_of (round reasons config env s)).retry_delay
  unfolding round
  round-IsBetween reasons env s ok =
      after_upload-IsBetween env s.retry_delay (upload_next reasons env.upload s.agent) ok

  -- Through any rounds of the loop a retry delay that starts between the configured minimum and
  -- maximum stays between them, if the two are ordered and twice the maximum fits into an int64.
  pub run-IsBetween :
      (reasons : Reasons) (envs : List RoundEnv) (s : RunState)
      → IsBetween s.retry_delay
      → IsBetween (run reasons config envs s).retry_delay
  unfolding run
  run-IsBetween reasons [] s ok = ok
  run-IsBetween reasons (env ∷ envs) s ok =
      next (round reasons config env s) (round-IsBetween reasons env s ok)
        (run-IsBetween reasons envs)
    where
      next :
          (r : Round)
          → IsBetween (state_of r).retry_delay
          → ((t : RunState)
              → IsBetween t.retry_delay
              → IsBetween (run reasons config envs t).retry_delay)
          → IsBetween
              (elim r as (λ x. RunState) [
                | stop t ↦ t
                | continue t ↦ run reasons config envs t
              ]).retry_delay
      next (stop t) h rest = h
      next (continue t) h rest = rest t h

  -- `n` failed uploads in a row, each with its wait run out
  pub data Failing (reasons : Reasons) (s : RunState) : ℕ → RunState → Type 0 where
    none_yet : Failing reasons s zero s
    one_more :
        {n : ℕ} {t : RunState} (env : RoundEnv) (e : UploadError)
        → Failing reasons s n t
        → (upload_next reasons env.upload t.agent).2 ≡ some e
        → env.context_done ≡ false
        → env.waited ≡ elapsed
        → Failing reasons s (suc n) (state_of (round reasons config env t))

  failed_delay :
      (reasons : Reasons) (env : RoundEnv) (s : RunState) (e : UploadError)
      → (upload_next reasons env.upload s.agent).2 ≡ some e
      → env.context_done ≡ false
      → env.waited ≡ elapsed
      → (state_of (round reasons config env s)).retry_delay ≡ double_delay config s.retry_delay
  unfolding round after_upload failed_round
  failed_delay reasons env s e failed going waited =
      rw (going, failed, waited, round, after_upload, failed_round)

  -- After `n` failed uploads in a row, each with its wait run out, the retry delay that started
  -- at the minimum is the minimum doubled `n` times, cut at the maximum; the minimum does not
  -- pass the maximum and twice the maximum fits into an int64.
  pub Failing-retry_delay :
      (reasons : Reasons) (s : RunState) {n : ℕ} {t : RunState}
      → Failing reasons s n t
      → s.retry_delay ≡ pos low
      → t.retry_delay ≡ pos (min (low * 2 ^ n) high)
  Failing-retry_delay reasons s none_yet start = start ∙ ap pos (omega (arith, bounds.ordered))
  Failing-retry_delay reasons s (one_more {n = n} {t = t} env e before failed going waited) start =
      failed_delay reasons env t e failed going waited
      ∙ ap (double_delay config) (Failing-retry_delay reasons s before start)
      ∙ double_delay_lem (min (low * 2 ^ n) high) (omega arith)
      ∙ ap pos (min_double (low * 2 ^ n) high ∙ ap (λ (p : ℕ). min p high) (doubled low n))
