-- ===== src/Agent/Runtime.antt =====
-- internal/agent/runtime.go: the start of the agent and its two answers. The goroutines and the HTTP server
-- of Run are not described: each part of it runs by the functions of its own module.
use dayz_behaviour.Prelude.{
  ℕ, Bool, true, false, ◌&&◌, ◌||◌, none, some, String, ltb, if◌then◌else◌, ◌⊎◌, inl, inr,
}
use dayz_behaviour.Prelude.Int.{ℤ, pos_part, pos, ltb_ℤ}
use dayz_behaviour.Agent.Config.{
  AgentConfig, ConfigError, ConfigLib, validate_config, minimum_retry_of, maximum_retry_of,
}
use dayz_behaviour.Agent.Outbox.{Outbox, stats, at_capacity}
use dayz_behaviour.Agent.Outbox.Scan.{OpenEnv, OpenError, open_outbox}
use dayz_behaviour.Agent.Uploader.{RetryConfig, UploadStatus}
use dayz_behaviour.Ingest.{Counters, record_spool_import}

pub data RuntimeError : Type 0 where
  invalid_config : ConfigError → RuntimeError
  no_outbox : OpenError → RuntimeError

pub record Runtime : Type 0 where
  pub config : AgentConfig
  pub outbox : Outbox
  pub status : UploadStatus

-- NewUploader: nothing was uploaded yet
abbrev pub no_uploads : UploadStatus
no_uploads = record {
  uploaded_batches = 0;
  upload_failures = 0;
  last_attempt_at = none;
  last_success_at = none;
  last_error = none;
}

pub retry_config_of : AgentConfig → RetryConfig
retry_config_of c = record {
  minimum_retry = minimum_retry_of c;
  maximum_retry = maximum_retry_of c;
}

-- NewRuntime; the limits of a valid configuration are positive
pub new_runtime : ConfigLib → OpenEnv → AgentConfig → Runtime ⊎ RuntimeError
new_runtime lib env c = elim (validate_config lib c) [
  | some e ↦ inr (invalid_config e)
  | none ↦
      elim (open_outbox env c.data_dir c.server_id (pos_part c.max_queue_bytes)
        (pos_part c.max_queue_batches)) [
          | inr e ↦ inr (no_outbox e)
          | inl o ↦ inl (record { config = c; outbox = o; status = no_uploads })
        ]
]

-- the status and the word of /readyz
pub handle_ready : Outbox → ℕ × String
handle_ready o = if at_capacity o then (503, "outbox_full") else (200, "ready")

abbrev has_error : UploadStatus → Bool
has_error s = elim s.last_error [ none ↦ false | some e ↦ true ]

-- the word of /agent/status
pub status_word : Outbox → UploadStatus → String
status_word o s =
    if at_capacity o || ((ltb 0 (stats o).batches && has_error s) || ltb 0 (stats o).dead_letters)
    then "degraded"
    else "ok"

-- one round of the spool importer: its counts go to the ingest server
pub note_import : ℤ → ℤ → Counters → Counters
note_import files batches c = if ltb_ℤ (pos 0) files then record_spool_import files batches c else c
