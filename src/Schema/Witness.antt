-- ===== src/Schema/Witness.antt =====
-- The theorems on validation, at a concrete batch.
use dayz_behaviour.Prelude.{◌≡◌, none}
use dayz_behaviour.Schema.{validate}
use dayz_behaviour.Schema.Accepts.{IsEnvelope, AllTrusted, validate_iff, validate-AllTrusted}
use dayz_behaviour.Schema.Examples.{
  sample_lib, sample_batch, visibility_lib, visibility_batch, visibility_batch-valid,
}

validate_iff_example :
    (validate sample_lib sample_batch ≡ none → IsEnvelope sample_lib sample_batch)
    × (IsEnvelope sample_lib sample_batch → validate sample_lib sample_batch ≡ none)
validate_iff_example = validate_iff sample_lib sample_batch

validate-AllTrusted_example : AllTrusted visibility_lib visibility_batch.events
validate-AllTrusted_example =
    validate-AllTrusted visibility_lib visibility_batch visibility_batch-valid
