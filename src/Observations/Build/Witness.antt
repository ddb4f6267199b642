-- ===== src/Observations/Build/Witness.antt =====
-- The theorem on the marks, at a batch with one hidden target.
use dayz_behaviour.Prelude.{◌≡◌, refl, [], ◌∷◌, inl}
use dayz_behaviour.Floats.Examples.{whole_floats}
use dayz_behaviour.Observations.Events.{default_config}
use dayz_behaviour.Observations.Events.Examples.{
  sample_build_lib, hidden_batch, hidden_flat, hidden_batch-flatten,
}
use dayz_behaviour.Observations.Independence.{assign_independence}
use dayz_behaviour.Observations.Build.{build, is_valid_config, with_defaults, observe_all}
use dayz_behaviour.Observations.Build.Eligible.{AllEligible, build-AllEligible}

hidden_batch-build :
    build whole_floats sample_build_lib default_config (hidden_batch ∷ [])
    ≡ inl (
        assign_independence sample_build_lib default_config
          (observe_all whole_floats sample_build_lib default_config [] (hidden_flat ∷ [])))
unfolding build is_valid_config with_defaults
hidden_batch-build = rw (build, hidden_batch-flatten) refl

build-AllEligible_example : AllEligible whole_floats (with_defaults default_config) (
    assign_independence sample_build_lib default_config
      (observe_all whole_floats sample_build_lib default_config [] (hidden_flat ∷ [])))
build-AllEligible_example =
    build-AllEligible whole_floats sample_build_lib default_config (hidden_batch ∷ [])
      (assign_independence sample_build_lib default_config
        (observe_all whole_floats sample_build_lib default_config [] (hidden_flat ∷ [])))
      hidden_batch-build
