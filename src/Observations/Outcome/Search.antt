-- ===== src/Observations/Outcome/Search.antt =====
-- internal/observations/builder.go: what readinessOutcome finds, and the interval that it reports.
use dayz_behaviour.Prelude.{
  ℕ, ◌<◌, ◌≤◌, ◌^◌, ◌≡◌, refl, true, Option, none, some, List, [], ◌∷◌, String, arith, inl, inr,
  Bool-cases, find, take_until,
}
use dayz_behaviour.Prelude.Int.{ℤ, pos, pos_part, ◌≤ℤ◌, ◌+ℤ◌, ◌-ℤ◌}
use dayz_behaviour.Prelude.Words.{add64, sub64, wrap64, quot64}
use dayz_behaviour.Observations.{Observation}
use dayz_behaviour.Observations.Events.{FlatEvent}
use dayz_behaviour.Observations.Outcome.{
  OutcomeResult, no_outcome, midpoint, no_wire_interval, interval_lower, interval_upper,
  interval_estimate, event_interval, is_outcome, outcome_of, ends_outcome, readiness_outcome,
}

module _ {F : Type 0} where
  abbrev pub report : Option (FlatEvent F) → List String → OutcomeResult
  report none source_ids = no_outcome source_ids
  report (some c) source_ids = outcome_of c source_ids

  pub readiness_outcome-find :
      (cs : List (FlatEvent F)) (origin : FlatEvent F) (x : Observation F)
      (source_ids : List String)
      → readiness_outcome cs origin x source_ids
        ≡ report
            (find (λ c. is_outcome c x) (take_until (λ c. ends_outcome origin c x) cs))
            source_ids
  unfolding readiness_outcome
  readiness_outcome-find [] origin x source_ids = refl
  readiness_outcome-find (c ∷ cs) origin x source_ids =
      elim (Bool-cases (ends_outcome origin c x)) [
        | inl e ↦ rw (e) refl
        | inr e ↦ elim (Bool-cases (is_outcome c x)) [
          | inl k ↦ rw (e, k) refl
          | inr k ↦ rw (e, k) (readiness_outcome-find cs origin x source_ids)
        ]
      ]

abbrev pub IsWithin : ℤ → ℤ → ℤ → Type 0
IsWithin lower t upper = (lower ≤ℤ t) × (t ≤ℤ upper)

midpoint-between :
    (m n : ℕ)
    → m ≤ n
    → n < 2 ^ 63
    → (pos m ≤ℤ midpoint (pos m) (pos n)) × (midpoint (pos m) (pos n) ≤ℤ pos n)
unfolding midpoint add64 sub64 wrap64 quot64 ◌+ℤ◌ ◌-ℤ◌
midpoint-between m n h small = ground (arith, h, small)

module _ {F : Type 0} where
  -- the times of an event are those of an int64
  abbrev pub IsClocked : FlatEvent F → Type 0
  IsClocked e =
      ((n : ℕ) × (e.event.server_time_ms ≡ pos n) × (n < 2 ^ 63))
      × (pos_part e.wire.event_time_upper_ms < 2 ^ 63)

  abbrev pub AllClocked : List (FlatEvent F) → Type 0
  AllClocked [] = Unit
  AllClocked (e ∷ es) = IsClocked e × AllClocked es

  interval_upper-times :
      (e : FlatEvent F)
      → IsClocked e
      → (m : ℕ) × (n : ℕ) × (interval_lower e ≡ pos m)
        × (interval_upper e ≡ pos n)
        × (m ≤ n)
        × (n < 2 ^ 63)
  unfolding interval_lower interval_upper
  interval_upper-times e ((t, now, small), bound) = elim (Bool-cases (no_wire_interval e)) [
    | inl k ↦ rw (k) (t, t, now, now, omega arith, small)
    | inr k ↦ rw (k) (
      pos_part e.wire.event_time_lower_ms,
      pos_part e.wire.event_time_upper_ms,
      ground (arith, k),
      ground (arith, k),
      ground (arith, k),
      bound,
    )
  ]

  interval_estimate-IsWithin :
      (e : FlatEvent F) (m n : ℕ)
      → m ≤ n
      → n < 2 ^ 63
      → IsWithin (pos m) (interval_estimate e (pos m) (pos n)) (pos n)
  unfolding interval_estimate
  interval_estimate-IsWithin e m n h small = ground (arith, h, small, midpoint-between m n h small)

  pub event_interval-IsWithin :
      (e : FlatEvent F)
      → IsClocked e
      → IsWithin (event_interval e).lower (event_interval e).estimate (event_interval e).upper
  unfolding event_interval
  event_interval-IsWithin e clocked =
      let (m, n, below, above, h, small) = interval_upper-times e clocked in
      rw (below, above) (interval_estimate-IsWithin e m n h small)

  -- an outcome that is observed meets the window, and its estimate lies in its own interval
  abbrev pub MeetsWindow : OutcomeResult → Observation F → Type 0
  MeetsWindow o x =
      o.observed ≡ true
      → (x.started_ms ≤ℤ o.upper_ms)
        × (o.lower_ms ≤ℤ x.closed_ms)
        × IsWithin o.lower_ms o.estimate_ms o.upper_ms

  outcome_of-MeetsWindow :
      (c : FlatEvent F) (x : Observation F) (source_ids : List String)
      → IsClocked c
      → is_outcome c x ≡ true
      → MeetsWindow (outcome_of c source_ids) x
  unfolding outcome_of is_outcome
  outcome_of-MeetsWindow c x source_ids clocked hit observed =
      (ground (arith, hit), ground (arith, hit), event_interval-IsWithin c clocked)

  -- A readiness outcome that is observed has an interval that meets the decision window of the
  -- observation, and an estimate that lies in the interval, if the server times of the events are
  -- from 0 below 2^63 and the upper ends of their payloads are below 2^63.
  pub readiness_outcome-MeetsWindow :
      (cs : List (FlatEvent F)) (origin : FlatEvent F) (x : Observation F)
      (source_ids : List String)
      → AllClocked cs
      → MeetsWindow (readiness_outcome cs origin x source_ids) x
  unfolding readiness_outcome
  readiness_outcome-MeetsWindow [] origin x source_ids clocked = λ h. absurd (cc (h))
  readiness_outcome-MeetsWindow (c ∷ cs) origin x source_ids clocked =
      elim (Bool-cases (ends_outcome origin c x)) [
        | inl e ↦ rw (e) (λ h. absurd (cc (h)))
        | inr e ↦ elim (Bool-cases (is_outcome c x)) [
          | inl k ↦ rw (e, k) (outcome_of-MeetsWindow c x source_ids clocked.0 k)
          | inr k ↦ rw (e, k) (readiness_outcome-MeetsWindow cs origin x source_ids clocked.1)
        ]
      ]
