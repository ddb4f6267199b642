-- ===== src/Observations/Build/Eligible.antt =====
-- internal/observations/builder.go: what the marks of an observation that Build returns stand for.
use dayz_behaviour.Prelude.{
  ◌≡◌, ◌≢◌, refl, true, none, some, List, [], ◌∷◌, arith, inl, inr, Bool-cases, Option-cases, subst,
}
use mathlib.Core.Sum.{inl-injective}
use dayz_behaviour.Prelude.Int.{pos, ◌≤ℤ◌}
use dayz_behaviour.Prelude.Text.{eq_iff}
use dayz_behaviour.Floats.{Floats}
use dayz_behaviour.Schema.{Batch, validated_first_person_origin}
use dayz_behaviour.Observations.{Observation}
use dayz_behaviour.Observations.Events.{
  Config, BuildLib, FlatEvent, flatten, is_random_opportunity_event,
}
use dayz_behaviour.Observations.Outcome.{is_exposed, readiness_outcome}
use dayz_behaviour.Observations.Cues.{Cue, cue_class}
use dayz_behaviour.Observations.Independence.{
  Spacing, no_spacing, is_spaced, withdraw, name_groups, space_one, space_next, space_all,
  assign_independence,
}
use dayz_behaviour.Observations.Build.{
  is_valid_config, with_defaults, add_fact, opening, with_outcome, with_exposure, expose,
  is_timing_eligible, started_of, is_strong_hidden, is_control, is_positive_control, qualify,
  observe, observe_all, build,
}

module _ (fl : Floats) (config : Config) where
  open fl use {F, lt, of_int}

  -- the delay in the queue and the uncertainty of the outcome are within the limits
  abbrev pub IsTimely : Observation F → Type 0
  IsTimely x =
      (pos 0 ≤ℤ x.queue_delay_ms)
      × (x.queue_delay_ms ≤ℤ config.max_queue_delay_ms)
      × (x.outcome_observed ≡ true → x.outcome_uncertainty_ms ≤ℤ config.max_event_uncertainty_ms)

  abbrev pub IsHiddenSample : Observation F → Type 0
  IsHiddenSample x =
      ((x.independent ≡ true)
        × (x.visibility_class ≡ "ROBUSTLY_OCCLUDED")
        × (x.visibility_authority ≡ "A"))
      × ((validated_first_person_origin x.observer_origin_mode ≡ true)
          × (x.visibility_validation_id ≢ "")
          × (pos 1 ≤ℤ x.occlusion_duration_ms))
      × IsTimely x
      × (lt (of_int 0) x.target_inclusion_probability ≡ true)
      × (lt (of_int 0) x.queue_admission_probability ≡ true)

  abbrev pub IsControlSample : Observation F → Type 0
  IsControlSample x =
      ((x.independent ≡ true)
        × (x.visibility_class ≡ "NO_RELEVANT_TARGET")
        × (x.visibility_authority ≡ "A"))
      × IsTimely x
      × (lt (of_int 0) x.queue_admission_probability ≡ true)

  abbrev pub IsExposedSample : Observation F → Type 0
  IsExposedSample x =
      ((x.independent ≡ true)
        × (is_exposed x.visibility_class ≡ true)
        × (x.visibility_authority ≡ "A"))
      × IsTimely x
      × (lt (of_int 0) x.target_inclusion_probability ≡ true)
      × (lt (of_int 0) x.queue_admission_probability ≡ true)

  -- the three marks of an observation
  abbrev pub IsEligible : Observation F → Type 0
  IsEligible x =
      (x.strong_hidden_eligible ≡ true → IsHiddenSample x)
      × (x.control_eligible ≡ true → IsControlSample x)
      × (x.positive_control_eligible ≡ true → IsExposedSample x)

  abbrev pub AllEligible : List (Observation F) → Type 0
  AllEligible [] = Unit
  AllEligible (x ∷ xs) = IsEligible x × AllEligible xs

module _ (fl : Floats) (lib : BuildLib fl.F) (config : Config) where
  open fl use {F, lt, of_int}

  is_strong_hidden-IsHiddenSample :
      (x : Observation F)
      → x.independent ≡ true
      → is_strong_hidden fl lib config x ≡ true
      → IsHiddenSample fl config x
  unfolding is_strong_hidden is_timing_eligible
  is_strong_hidden-IsHiddenSample x free h = ground (
    arith,
    h,
    free,
    eq_iff x.visibility_class "ROBUSTLY_OCCLUDED",
    eq_iff x.visibility_authority "A",
    eq_iff x.visibility_validation_id "",
  )

  is_control-IsControlSample :
      (x : Observation F)
      → x.independent ≡ true
      → is_control fl lib config x ≡ true
      → IsControlSample fl config x
  unfolding is_control is_timing_eligible
  is_control-IsControlSample x free h = ground (
    arith,
    h,
    free,
    eq_iff x.visibility_class "NO_RELEVANT_TARGET",
    eq_iff x.visibility_authority "A",
  )

  is_positive_control-IsExposedSample :
      (x : Observation F)
      → x.independent ≡ true
      → is_positive_control fl lib config x ≡ true
      → IsExposedSample fl config x
  unfolding is_positive_control is_timing_eligible
  is_positive_control-IsExposedSample x free h =
      ground (arith, h, free, eq_iff x.visibility_authority "A")

  qualify-IsEligible :
      (e : FlatEvent F) (x : Observation F)
      → x.independent ≡ true
      → IsEligible fl config (qualify fl lib config e x)
  unfolding qualify
  qualify-IsEligible e x free = (
    is_strong_hidden-IsHiddenSample x free,
    is_control-IsControlSample x free,
    is_positive_control-IsExposedSample x free,
  )

  expose-independent :
      (e : FlatEvent F) (after : List (FlatEvent F)) (x : Observation F)
      → x.independent ≡ true
      → (expose fl lib config e after x).independent ≡ true
  unfolding expose with_exposure
  expose-independent e after x free = ground (arith, free)

  add_fact-independent :
      (cue : Cue) (e : FlatEvent F)
      → (add_fact fl lib config cue.1 (opening fl lib config e cue)).independent ≡ true
  unfolding add_fact opening
  add_fact-independent (label, none) e = refl
  add_fact-independent (label, some fact) e = refl

  observe-IsEligible :
      (before : List (FlatEvent F)) (e : FlatEvent F) (after : List (FlatEvent F))
      → IsEligible fl config (observe fl lib config before e after)
  unfolding observe with_outcome
  observe-IsEligible before e after =
      let cue =
        cue_class before e e.event.player_session_id e.wire.target_player_id
          (started_of fl lib config e) in
      let opened = add_fact fl lib config cue.1 (opening fl lib config e cue) in
      let shown =
        with_outcome fl lib config (readiness_outcome after e opened opened.source_event_ids)
          opened in
      qualify-IsEligible e (expose fl lib config e after shown)
        (expose-independent e after shown (add_fact-independent cue e))

  observe_all-AllEligible :
      (before events : List (FlatEvent F))
      → AllEligible fl config (observe_all fl lib config before events)
  unfolding observe_all
  observe_all-AllEligible before [] = tt
  observe_all-AllEligible before (e ∷ after) = elim (Bool-cases (is_random_opportunity_event e)) [
    | inl k ↦ rw (k) (observe-IsEligible before e after, observe_all-AllEligible (e ∷ before) after)
    | inr k ↦ rw (k) (observe_all-AllEligible (e ∷ before) after)
  ]

  space_one-IsEligible :
      (limits : Config) (x : Observation F) (s : Spacing)
      → IsEligible fl config x
      → IsEligible fl config (space_one lib limits x s)
  unfolding space_one name_groups withdraw
  space_one-IsEligible limits x s ok = elim (Bool-cases (is_spaced lib limits x s)) [
    | inl e ↦ rw (e) ok
    | inr e ↦ rw (e) (λ h. absurd (cc (h)), λ h. absurd (cc (h)), λ h. absurd (cc (h)))
  ]

  space_all-AllEligible :
      (limits : Config) (xs : List (Observation F)) (s : Spacing)
      → AllEligible fl config xs
      → AllEligible fl config (space_all lib limits xs s)
  unfolding space_all
  space_all-AllEligible limits [] s ok = tt
  space_all-AllEligible limits (x ∷ xs) s ok = (
    space_one-IsEligible limits x s ok.0,
    space_all-AllEligible limits xs (space_next lib limits x s) ok.1,
  )

-- Every observation that Build returns earns its marks: one marked as a strong hidden sample is
-- independent, robustly occluded by authority A for a positive time from a validated first-person
-- origin, with a validation id, timely and with positive probabilities; one marked as a control
-- is independent, of authority A with no relevant target, timely and with a positive admission
-- probability; one marked as a positive control is independent, exposed, of authority A, timely
-- and with positive probabilities. Timely means that the queue delay and the uncertainty of an
-- observed outcome are within the configured limits.
pub build-AllEligible :
    (fl : Floats) (lib : BuildLib fl.F) (config : Config) (batches : List Batch)
    (xs : List (Observation fl.F))
    → build fl lib config batches ≡ inl xs
    → AllEligible fl (with_defaults config) xs
unfolding build assign_independence
build-AllEligible fl lib config batches xs h = elim (Bool-cases (is_valid_config config)) [
  | inr bad ↦ absurd (cc (rw (bad, build) at h))
  | inl good ↦ elim (Option-cases (flatten lib batches)) [
    | inl e ↦ absurd (cc (rw (good, e, build) at h))
    | inr (events, e) ↦
        let c = with_defaults config in
        subst (AllEligible fl c) (inl-injective _ _ (rw (good, e, build) at h)) (
          space_all-AllEligible fl lib c c (observe_all fl lib c [] events) no_spacing
            (observe_all-AllEligible fl lib c [] events))
  ]
]
