-- ===== src/Schema/Trust.antt =====
-- pkg/schema/v1.go: the guards of Event.Validate on source, authority and the visibility payload.
use dayz_behaviour.Prelude.{◌≡◌, ◌≢◌, ap, ◌⊎◌, inl, inr, none, some, String, arith, Option-cases}
use dayz_behaviour.Prelude.Text.{eq_iff, str_eq}
use dayz_behaviour.Json.{Fields, JsonLib}
use dayz_behaviour.Schema.Evidence.{IsEvidence, visibility_fields-IsEvidence}
use dayz_behaviour.Schema.{
  Event, source_client, source_server, validate_event, validate_authority, validate_visibility,
  is_missing, validate_visibility_payload, as_fields,
}

pub record IsTrusted (e : Event) : Type 0 where
  pub known_source : (e.source ≡ source_server) ⊎ (e.source ≡ source_client)
  pub client_sequenced : e.source ≡ source_client → e.client_sequence ≢ none
  pub client_not_server : e.source ≡ source_client → e.source_authority ≢ "A"
  pub visibility_by_server :
      e.event_type ≡ "VISIBILITY_OBSERVATION"
      → (e.source ≡ source_server) × (e.source_authority ≡ "A")

module _ (lib : JsonLib) (e : Event) where
  -- An accepted event has one of the two sources; a client event carries its sequence number and
  -- does not claim server authority; a visibility observation comes from the server with authority A.
  pub validate_event-IsTrusted : validate_event lib e ≡ none → IsTrusted e
  unfolding validate_event validate_authority validate_visibility is_missing
  validate_event-IsTrusted h = record {
    known_source = ground (arith, eq_iff e.source "server", eq_iff e.source "client_untrusted");
    client_sequenced = λ p q. ground (arith, eq_iff e.source "client_untrusted");
    client_not_server = λ p q. ground (
      arith,
      eq_iff e.source "client_untrusted",
      ap (λ (a : String). str_eq a "") q,
      ap (λ (a : String). str_eq a "B") q,
      ap (λ (a : String). str_eq a "C") q,
    );
    visibility_by_server = λ p. ground (
      arith,
      eq_iff e.event_type "VISIBILITY_OBSERVATION",
      eq_iff e.source "server",
      eq_iff e.source_authority "A",
    );
  }

  pub validate_event-payload :
      validate_event lib e ≡ none
      → e.event_type ≡ "VISIBILITY_OBSERVATION"
      → validate_visibility_payload lib e.payload ≡ none
  unfolding validate_event validate_visibility
  validate_event-payload h p = ground (arith, eq_iff e.event_type "VISIBILITY_OBSERVATION")

module _ (lib : JsonLib) where
  open lib use {Number, parse}

  abbrev pub Shows : Event → Type 0
  Shows e =
      (fields : Fields Number) × (as_fields lib (parse e.payload) ≡ some fields)
      × IsEvidence lib fields

  payload-Shows : (e : Event) → validate_visibility_payload lib e.payload ≡ none → Shows e
  unfolding validate_visibility_payload
  payload-Shows e h = elim (Option-cases (as_fields lib (parse e.payload))) [
    | inl missing ↦ ground arith
    | inr (fields, found) ↦ (fields, found, visibility_fields-IsEvidence lib fields (ground arith))
  ]

  -- An accepted event is trusted, and an accepted visibility observation shows its evidence.
  pub validate_event-Shows :
      (e : Event)
      → validate_event lib e ≡ none
      → IsTrusted e × (e.event_type ≡ "VISIBILITY_OBSERVATION" → Shows e)
  validate_event-Shows e h =
      (validate_event-IsTrusted lib e h, λ p. payload-Shows e (validate_event-payload lib e h p))
