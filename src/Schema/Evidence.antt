-- ===== src/Schema/Evidence.antt =====
-- pkg/schema/v1.go: the fields of a visibility payload.
use dayz_behaviour.Prelude.{
  ◌≡◌, refl, ◌⊎◌, inl, inr, true, false, Option, none, some, String, List, [], ◌∷◌, arith,
  Option-cases,
}
use dayz_behaviour.Prelude.Text.{eq_iff, is_blank}
use dayz_behaviour.Json.{Fields, JsonLib, get_field, as_text, as_number}
use dayz_behaviour.Schema.{
  ◌orelse◌, validate_visibility_fields, robust_unvalidated, field_text, positive,
  validated_first_person_origin, require_string, require_strings, non_negative, non_negatives,
  no_duration, required_texts, required_counts,
}

pub orelse-eq-none {ℓ} :
    {A : Type ℓ} (o rest : Option A) → (o orelse rest) ≡ none → (o ≡ none) × (rest ≡ none)
orelse-eq-none none rest h = (refl, h)
orelse-eq-none (some e) rest h = cc

module _ (lib : JsonLib) where
  open lib use {Number, lt, le, zero_number, one_number, parse}

  abbrev pub InUnit : Fields Number → String → Type 0
  InUnit fields key =
      (p : Number) × (as_number (get_field key fields) ≡ some p)
      × (lt zero_number p ≡ true)
      × (le p one_number ≡ true)

  positive-InUnit :
      (fields : Fields Number) (key : String) → positive lib fields key ≡ true → InUnit fields key
  unfolding positive
  positive-InUnit fields key h = elim (Option-cases (as_number (get_field key fields))) [
    | inl e ↦ ground arith
    | inr (p, e) ↦ (p, e, ground arith, ground arith)
  ]

  -- a text that is not blank, and a number that is not negative
  abbrev pub HasText : Fields Number → String → Type 0
  HasText fields key =
      (value : String) × (as_text (get_field key fields) ≡ some value) × (is_blank value ≡ false)

  abbrev pub HasCount : Fields Number → String → Type 0
  HasCount fields key =
      (n : Number) × (as_number (get_field key fields) ≡ some n) × (lt n zero_number ≡ false)

  abbrev AllFields : (Fields Number → String → Type 0) → Fields Number → List String → Type 0
  AllFields P fields [] = Unit
  AllFields P fields (key ∷ keys) = P fields key × AllFields P fields keys

  -- the duration of the occlusion, 0 where there is none
  abbrev pub number_or_zero : Option Number → Number
  number_or_zero none = zero_number
  number_or_zero (some n) = n

  require_string-HasText :
      (fields : Fields Number) (key : String)
      → require_string lib fields key ≡ none
      → HasText fields key
  unfolding require_string
  require_string-HasText fields key h = elim (Option-cases (as_text (get_field key fields))) [
    | inl e ↦ absurd (ground arith)
    | inr (value, e) ↦ (value, e, ground arith)
  ]

  non_negative-HasCount :
      (fields : Fields Number) (key : String)
      → non_negative lib fields key ≡ none
      → HasCount fields key
  unfolding non_negative
  non_negative-HasCount fields key h = elim (Option-cases (as_number (get_field key fields))) [
    | inl e ↦ absurd (ground arith)
    | inr (n, e) ↦ (n, e, ground arith)
  ]

  require_strings-AllFields :
      (fields : Fields Number) (keys : List String)
      → require_strings lib fields keys ≡ none
      → AllFields HasText fields keys
  unfolding require_strings
  require_strings-AllFields fields [] h = tt
  require_strings-AllFields fields (key ∷ keys) h =
      let both =
        orelse-eq-none (require_string lib fields key) (require_strings lib fields keys) h in
      (require_string-HasText fields key both.0, require_strings-AllFields fields keys both.1)

  non_negatives-AllFields :
      (fields : Fields Number) (keys : List String)
      → non_negatives lib fields keys ≡ none
      → AllFields HasCount fields keys
  unfolding non_negatives
  non_negatives-AllFields fields [] h = tt
  non_negatives-AllFields fields (key ∷ keys) h =
      let both = orelse-eq-none (non_negative lib fields key) (non_negatives lib fields keys) h in
      (non_negative-HasCount fields key both.0, non_negatives-AllFields fields keys both.1)

  pub record HasTexts (fields : Fields Number) : Type 0 where
    pub observer : HasText fields "observer_player_id"
    pub target : HasText fields "target_player_id"
    pub classification : HasText fields "classification"
    pub origin : HasText fields "observer_origin_mode"
    pub stream : HasText fields "sampling_stream"
    pub policy_version : HasText fields "sampling_policy_version"
    pub reason : HasText fields "sampling_reason"
    pub risk_set : HasText fields "risk_set_definition"
    pub load_state : HasText fields "scheduler_load_state"
    pub visibility_version : HasText fields "visibility_policy_version"

  pub record HasCounts (fields : Fields Number) : Type 0 where
    pub observers : HasCount fields "observer_eligible_count"
    pub targets : HasCount fields "target_eligible_count"
    pub started : HasCount fields "probe_started_ms"
    pub completed : HasCount fields "probe_completed_ms"

  -- What an accepted visibility payload shows: the ten required texts and the four required
  -- counts, one of the two streams, three probabilities in (0, 1], and, if it claims robust
  -- occlusion, a first-person origin, a validation identifier and a positive duration.
  pub record IsEvidence (fields : Fields Number) : Type 0 where
    pub texts : HasTexts fields
    pub counts : HasCounts fields
    pub stream :
        (field_text lib fields "sampling_stream" ≡ "random_opportunity")
        ⊎ (field_text lib fields "sampling_stream" ≡ "event_enrichment")
    pub observer_probability : InUnit fields "observer_inclusion_probability"
    pub target_probability : InUnit fields "target_inclusion_probability"
    pub queue_probability : InUnit fields "queue_admission_probability"
    pub robust_origin :
        field_text lib fields "classification" ≡ "ROBUSTLY_OCCLUDED"
        → (field_text lib fields "observer_origin_mode" ≡ "VALIDATED_FIRST_PERSON_HEAD")
          ⊎ (field_text lib fields "observer_origin_mode" ≡ "FIRST_PERSON_EYE")
    pub robust_validation :
        field_text lib fields "classification" ≡ "ROBUSTLY_OCCLUDED"
        → is_blank (field_text lib fields "visibility_validation_id") ≡ false
    pub robust_duration :
        field_text lib fields "classification" ≡ "ROBUSTLY_OCCLUDED"
        → le (number_or_zero (as_number (get_field "occlusion_duration_ms" fields))) zero_number
          ≡ false

  texts_of : (fields : Fields Number) → AllFields HasText fields required_texts → HasTexts fields
  texts_of fields (a, (b, (c, (d, (e, (f, (g, (h, (i, (j, end_of)))))))))) = record {
    observer = a;
    target = b;
    classification = c;
    origin = d;
    stream = e;
    policy_version = f;
    reason = g;
    risk_set = h;
    load_state = i;
    visibility_version = j;
  }

  counts_of :
      (fields : Fields Number) → AllFields HasCount fields required_counts → HasCounts fields
  counts_of fields (a, (b, (c, (d, end_of)))) = record {
    observers = a;
    targets = b;
    started = c;
    completed = d;
  }

  duration_shown :
      (fields : Fields Number)
      → no_duration lib fields ≡ false
      → le (number_or_zero (as_number (get_field "occlusion_duration_ms" fields))) zero_number
        ≡ false
  unfolding no_duration
  duration_shown fields h =
      elim (Option-cases (as_number (get_field "occlusion_duration_ms" fields))) [
        | inl e ↦ ground arith
        | inr (n, e) ↦ ground arith
      ]

  pub visibility_fields-IsEvidence :
      (fields : Fields Number) → validate_visibility_fields lib fields ≡ none → IsEvidence fields
  unfolding validate_visibility_fields robust_unvalidated validated_first_person_origin
  visibility_fields-IsEvidence fields h = record {
    texts = texts_of fields (require_strings-AllFields fields required_texts (ground arith));
    counts = counts_of fields (non_negatives-AllFields fields required_counts (ground arith));
    stream = ground (
      arith,
      eq_iff (field_text lib fields "sampling_stream") "random_opportunity",
      eq_iff (field_text lib fields "sampling_stream") "event_enrichment",
    );
    observer_probability = positive-InUnit fields _ (ground arith);
    target_probability = positive-InUnit fields _ (ground arith);
    queue_probability = positive-InUnit fields _ (ground arith);
    robust_origin = λ p. ground (
      arith,
      eq_iff (field_text lib fields "classification") "ROBUSTLY_OCCLUDED",
      eq_iff (field_text lib fields "observer_origin_mode") "VALIDATED_FIRST_PERSON_HEAD",
      eq_iff (field_text lib fields "observer_origin_mode") "FIRST_PERSON_EYE",
    );
    robust_validation =
        λ p. ground (arith, eq_iff (field_text lib fields "classification") "ROBUSTLY_OCCLUDED");
    robust_duration = λ p.
        duration_shown fields
          (ground (arith, eq_iff (field_text lib fields "classification") "ROBUSTLY_OCCLUDED"));
  }
