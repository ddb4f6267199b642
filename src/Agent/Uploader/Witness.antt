-- ===== src/Agent/Uploader/Witness.antt =====
-- The theorems on the uploader, at a queue of one batch and a server that fails.
use dayz_behaviour.Prelude.{
  ℕ, ◌*◌, ◌^◌, ◌≡◌, ◌≢◌, ap, subst, ◌⊎◌, refl, false, none, some, [], ◌∷◌, String, arith, min,
}
use dayz_behaviour.Prelude.Int.{pos}
use dayz_behaviour.Agent.Outbox.Invariant.{IsConsistent}
use dayz_behaviour.Agent.Outbox.Examples.{
  sample_file, one_outbox, one_disk, sample_dead_letter, one_outbox-IsConsistent,
  one_outbox-IsOutside, one_outbox-next,
}
use dayz_behaviour.Agent.Uploader.{
  Agent, UploadEnv, RetryConfig, RoundEnv, RunState, response, no_response, elapsed, send_request,
  upload_next, sent, exchanged, attempt, round, run, continue, after_upload, failed_round,
  record_failure, double_delay,
}
use dayz_behaviour.Agent.Uploader.Delivery.{IsKept, IsSettled, upload_next_lem}
use dayz_behaviour.Agent.Uploader.Drain.{IsAccepted, IsDrained, run-IsDrained}
use dayz_behaviour.Prelude.Text.{str_eq}
use dayz_behaviour.Agent.Uploader.Keeps.{IsCalm, upload_next-IsConsistent}
use dayz_behaviour.Agent.Uploader.Loop.{run-IsConsistent}
use dayz_behaviour.Agent.Uploader.Backoff.{
  HasBounds, IsBetween, run-IsBetween, none_yet, one_more, Failing-retry_delay, state_of,
}

abbrev sample_agent : Agent
sample_agent = record {
  outbox = one_outbox;
  disk = one_disk;
  status = record {
    uploaded_batches = 0;
    upload_failures = 0;
    last_attempt_at = none;
    last_success_at = none;
    last_error = none;
  };
}

abbrev accepting : UploadEnv
accepting = record {
  read_fails = false;
  remove_fails = false;
  dead_letter = sample_dead_letter;
  exchange = λ content. response 202 "";
  status_text = λ status. "Accepted";
  attempted_at = pos 1;
  succeeded_at = pos 2;
}

abbrev unreachable : RoundEnv
unreachable = record {
  upload = record accepting { exchange = λ content. no_response };
  context_done = false;
  waited = elapsed;
}

abbrev plain_reasons : ℕ → String → String
plain_reasons status message = message

abbrev sample_config : RetryConfig
sample_config = record { minimum_retry = pos 2; maximum_retry = pos 3 }

sample_bounds : HasBounds sample_config 2 3
sample_bounds = record { minimum = refl; maximum = refl; ordered = omega arith; fits = omega arith }

abbrev start_state : RunState
start_state = record { agent = sample_agent; retry_delay = pos 2 }

unreachable-fails :
    (upload_next plain_reasons unreachable.upload sample_agent).2 ≡ some send_request
unfolding upload_next sent exchanged attempt
unreachable-fails = rw (one_outbox-next.0, upload_next, one_outbox-next.1) refl

unreachable-keeps :
    (upload_next plain_reasons unreachable.upload sample_agent).0
    ≡ attempt plain_reasons unreachable.upload sample_agent
unfolding upload_next sent exchanged
unreachable-keeps = rw (one_outbox-next.0, upload_next, one_outbox-next.1) refl

upload_next_lem_example :
    let r = upload_next plain_reasons accepting sample_agent in
    IsKept sample_agent r ⊎ IsSettled accepting sample_agent sample_file [] r
upload_next_lem_example =
    upload_next_lem plain_reasons accepting sample_agent sample_file [] one_outbox-IsConsistent refl

upload_next-IsConsistent_example :
    let r = upload_next plain_reasons accepting sample_agent in IsConsistent r.0.outbox r.0.disk
upload_next-IsConsistent_example =
    upload_next-IsConsistent plain_reasons accepting sample_agent one_outbox-IsConsistent
      (record { outside = one_outbox-IsOutside; fresh = refl })

run-IsBetween_example :
    IsBetween sample_config 2 3 sample_bounds
      (run plain_reasons sample_config (unreachable ∷ unreachable ∷ []) start_state).retry_delay
run-IsBetween_example =
    run-IsBetween sample_config 2 3 sample_bounds plain_reasons (unreachable ∷ unreachable ∷ [])
      start_state (2, refl, omega arith, omega arith)

Failing-retry_delay_example :
    (state_of sample_config 2 3 sample_bounds
      (round plain_reasons sample_config unreachable start_state)).retry_delay
    ≡ pos (min (2 * 2 ^ 1) 3)
Failing-retry_delay_example =
    Failing-retry_delay sample_config 2 3 sample_bounds plain_reasons start_state
      (one_more unreachable send_request none_yet unreachable-fails refl refl) refl

abbrev accepting_round : RoundEnv
accepting_round = record { upload = accepting; context_done = false; waited = elapsed }

accepting_round-IsAccepted : IsAccepted accepting_round
accepting_round-IsAccepted = record {
  reads = refl;
  removes = refl;
  runs = refl;
  accepts = λ content. (202, "", refl, refl);
}

named_file : sample_file.path ≢ ""
named_file = λ e. absurd (cc (ap (λ (s : String). str_eq s "") e))

-- the first round of the two changes neither the outbox nor the disk
unreachable-round :
    (t : RunState)
    → round plain_reasons sample_config unreachable start_state ≡ continue t
    → IsCalm accepting t.agent
unfolding round after_upload failed_round attempt
unreachable-round t on =
    let r = upload_next plain_reasons unreachable.upload sample_agent in
    let first : RunState = record {
      agent = record r.0 { status = record_failure send_request r.0.status };
      retry_delay = double_delay sample_config start_state.retry_delay;
    } in
    let goes : round plain_reasons sample_config unreachable start_state ≡ continue first =
      rw (round, after_upload, unreachable-fails) refl in
    let same : first ≡ t = cc (goes, on) in
    subst (λ (u : RunState). IsCalm accepting u.agent) same
      (record {
        outside = rw (unreachable-keeps) one_outbox-IsOutside;
        fresh = rw (unreachable-keeps) refl;
      })

run-IsConsistent_example :
    let t = run plain_reasons sample_config (unreachable ∷ accepting_round ∷ []) start_state in
    IsConsistent t.agent.outbox t.agent.disk
run-IsConsistent_example =
    run-IsConsistent plain_reasons sample_config (unreachable ∷ accepting_round ∷ []) start_state
      one_outbox-IsConsistent
      (
        record { outside = one_outbox-IsOutside; fresh = refl },
        λ t on. (unreachable-round t on, λ u later. tt),
      )

run-IsDrained_example :
    IsDrained sample_agent
      (run plain_reasons sample_config (accepting_round ∷ []) start_state).agent
      1
run-IsDrained_example =
    run-IsDrained plain_reasons sample_config (sample_file ∷ []) (accepting_round ∷ []) start_state
      (accepting_round-IsAccepted, tt) refl one_outbox-IsConsistent refl (named_file, tt)
      (omega arith)
