-- ===== src/Schema/Accepts.antt =====
-- pkg/schema/v1.go: Batch.Validate over the envelope and the events.
use dayz_behaviour.Prelude.{
  ◌≡◌, refl, inl, inr, false, none, List, [], ◌∷◌, String, ℕ, arith, Option-cases, ◌+◌, ◌≤◌, ◌<◌,
  length,
}
use dayz_behaviour.Prelude.Int.{pos, ◌≤ℤ◌}
use dayz_behaviour.Prelude.Text.{is_blank, len}
use dayz_behaviour.Json.{JsonLib}
use dayz_behaviour.Schema.{
  Event, Batch, validate_event, validate_events, validate, identifier_error, validate_identifier,
  max_identifier_length, max_events_per_batch,
}
use dayz_behaviour.Schema.Trust.{IsTrusted, Shows, validate_event-Shows}

-- every event is accepted on its own
abbrev pub AllValid : JsonLib → List Event → Type 0
AllValid lib [] = Unit
AllValid lib (e ∷ es) = (validate_event lib e ≡ none) × AllValid lib es

abbrev pub AllTrusted : JsonLib → List Event → Type 0
AllTrusted lib [] = Unit
AllTrusted lib (e ∷ es) =
    (IsTrusted e × (e.event_type ≡ "VISIBILITY_OBSERVATION" → Shows lib e)) × AllTrusted lib es

-- A required identifier that is not blank and not too long.
pub record IsIdentifier (value : String) : Type 0 where
  pub present : is_blank value ≡ false
  pub short : len value ≤ max_identifier_length

pub record IsEnvelope (lib : JsonLib) (b : Batch) : Type 0 where
  pub version : b.schema_version ≡ pos 1
  pub server : IsIdentifier b.server_id
  pub server_session : IsIdentifier b.server_session_id
  pub numbered : 0 < b.batch_sequence
  pub timed : pos 0 ≤ℤ b.server_time_ms
  pub not_empty : 0 < length b.events
  pub bounded : length b.events ≤ max_events_per_batch
  pub events : AllValid lib b.events

module _ (lib : JsonLib) where
  validate_events-AllValid :
      (i : ℕ) (es : List Event) → validate_events lib i es ≡ none → AllValid lib es
  unfolding validate_events
  validate_events-AllValid i [] h = tt
  validate_events-AllValid i (e ∷ es) h = elim (Option-cases (validate_event lib e)) [
    | inl fine ↦ (fine, validate_events-AllValid (i + 1) es (ground arith))
    | inr (why, bad) ↦ absurd (ground arith)
  ]

  AllValid-validate_events :
      (i : ℕ) (es : List Event) → AllValid lib es → validate_events lib i es ≡ none
  unfolding validate_events
  AllValid-validate_events i [] h = refl
  AllValid-validate_events i (e ∷ es) h = ground (arith, AllValid-validate_events (i + 1) es h.1)

  AllValid-AllTrusted : (es : List Event) → AllValid lib es → AllTrusted lib es
  AllValid-AllTrusted [] h = tt
  AllValid-AllTrusted (e ∷ es) h = (validate_event-Shows lib e h.0, AllValid-AllTrusted es h.1)

  -- Validate accepts a batch exactly when its envelope is in order: version 1, both server
  -- identifiers present and at most 128 bytes, a positive sequence number, a time that is not
  -- negative, 1 to 1000 events, and each event accepted by its own Validate.
  pub validate_iff :
      (b : Batch)
      → (validate lib b ≡ none → IsEnvelope lib b) × (IsEnvelope lib b → validate lib b ≡ none)
  unfolding validate validate_identifier identifier_error
  validate_iff b = (
    λ h. record {
      version = ground arith;
      server = record { present = ground arith; short = ground arith };
      server_session = record { present = ground arith; short = ground arith };
      numbered = ground arith;
      timed = ground arith;
      not_empty = ground arith;
      bounded = ground arith;
      events = validate_events-AllValid 0 b.events (ground arith);
    },
    λ ok. ground (arith, AllValid-validate_events 0 b.events ok.events),
  )

  -- In a batch that Validate accepts, every event has a known source, no client event claims
  -- authority A or lacks its client sequence, and every visibility observation is the server's
  -- with authority A and a payload that shows its evidence: the ten required texts, not blank,
  -- the four required counts, not negative, a known sampling stream, three probabilities in (0,
  -- 1], and for robust occlusion a first-person origin, a validation identifier and a positive
  -- duration.
  pub validate-AllTrusted : (b : Batch) → validate lib b ≡ none → AllTrusted lib b.events
  validate-AllTrusted b h = AllValid-AllTrusted b.events ((validate_iff b).0 h).events
