-- ===== src/Observations/Outcome.antt =====
-- internal/observations/builder.go: the interval of an event, the readiness outcome and the first exposure.
pub mod Search
mod Witness
use dayz_behaviour.Prelude.{
  ℕ, Bool, true, false, ◌&&◌, ◌||◌, not, List, [], ◌∷◌, ◌++◌, String, if◌then◌else◌,
}
use dayz_behaviour.Prelude.Int.{ℤ, pos, ltb_ℤ}
use dayz_behaviour.Prelude.Words.{add64, sub64, quot64}
use dayz_behaviour.Prelude.Text.{str_eq}
use dayz_behaviour.Observations.{Observation}
use dayz_behaviour.Observations.Events.{FlatEvent, same_server_session}

pub record OutcomeResult : Type 0 where
  pub observed : Bool
  pub estimate_ms : ℤ
  pub lower_ms : ℤ
  pub upper_ms : ℤ
  pub uncertainty : ℤ
  pub timing : String
  pub authority : String
  pub source_ids : List String

pub record ExposureResult : Type 0 where
  pub estimate_ms : ℤ
  pub lower_ms : ℤ
  pub upper_ms : ℤ
  pub cause : String
  pub censored : Bool
  pub source_ids : List String

-- the five results of eventInterval
pub record Interval : Type 0 where
  pub lower : ℤ
  pub upper : ℤ
  pub estimate : ℤ
  pub uncertainty : ℤ
  pub source : String

abbrev pub not_positive : ℤ → Bool
not_positive a = not (ltb_ℤ (pos 0) a)

-- lower + ((upper - lower) / 2)
pub midpoint : ℤ → ℤ → ℤ
midpoint lower upper = add64 lower (quot64 (sub64 upper lower) (pos 2))

pub is_readiness_reason : String → Bool
is_readiness_reason r =
    str_eq r "WEAPON_RAISED" || (str_eq r "ADS_ENTERED" || str_eq r "OPTICS_ENTERED")

abbrev pub no_outcome : List String → OutcomeResult
no_outcome source_ids = record {
  observed = false;
  estimate_ms = pos 0;
  lower_ms = pos 0;
  upper_ms = pos 0;
  uncertainty = pos 0;
  timing = "";
  authority = "";
  source_ids = source_ids;
}

pub is_exposed : String → Bool
is_exposed classification =
    str_eq classification "EXPOSED" || str_eq classification "PARTIALLY_EXPOSED"

abbrev pub no_exposure : List String → ExposureResult
no_exposure source_ids = record {
  estimate_ms = pos 0;
  lower_ms = pos 0;
  upper_ms = pos 0;
  cause = "UNKNOWN";
  censored = true;
  source_ids = source_ids;
}

module _ {F : Type 0} where
  abbrev pub no_wire_interval : FlatEvent F → Bool
  no_wire_interval e =
      not_positive e.wire.event_time_lower_ms
      || ltb_ℤ e.wire.event_time_upper_ms e.wire.event_time_lower_ms

  pub interval_lower : FlatEvent F → ℤ
  interval_lower e =
      if no_wire_interval e then e.event.server_time_ms else e.wire.event_time_lower_ms

  pub interval_upper : FlatEvent F → ℤ
  interval_upper e =
      if no_wire_interval e then e.event.server_time_ms else e.wire.event_time_upper_ms

  -- the estimate of the payload where it lies in the interval
  pub interval_estimate : FlatEvent F → ℤ → ℤ → ℤ
  interval_estimate e lower upper =
      if ltb_ℤ e.wire.event_time_estimate_ms lower || ltb_ℤ upper e.wire.event_time_estimate_ms
      then midpoint lower upper
      else e.wire.event_time_estimate_ms

  pub event_interval : FlatEvent F → Interval
  unfolding interval_lower interval_upper interval_estimate midpoint
  event_interval e =
      let lower = interval_lower e in
      let upper = interval_upper e in
      record {
        lower = lower;
        upper = upper;
        estimate = interval_estimate e lower upper;
        uncertainty =
            if not_positive e.wire.event_time_uncertainty_ms
            then quot64 (sub64 upper lower) (pos 2)
            else e.wire.event_time_uncertainty_ms;
        source =
            if str_eq e.wire.event_timing_source ""
            then "SERVER_EVENT_POINT"
            else e.wire.event_timing_source;
      }

  -- what the loop of readinessOutcome does not skip
  pub is_outcome : FlatEvent F → Observation F → Bool
  unfolding is_readiness_reason
  is_outcome c x =
      let i = event_interval c in
      (str_eq c.event.player_session_id x.observer_player_session_id
        && str_eq c.event.event_type "DECISION_EDGE")
      && (is_readiness_reason c.wire.sampling_reason
          && not (ltb_ℤ i.upper x.started_ms || ltb_ℤ x.closed_ms i.lower))

  pub outcome_of : FlatEvent F → List String → OutcomeResult
  unfolding event_interval
  outcome_of c source_ids =
      let i = event_interval c in
      record {
        observed = true;
        estimate_ms = i.estimate;
        lower_ms = i.lower;
        upper_ms = i.upper;
        uncertainty = i.uncertainty;
        timing = i.source;
        authority = c.event.source_authority;
        source_ids = source_ids ++ c.id ∷ [];
      }

  -- where the loop breaks: another server session, or five seconds after the window
  abbrev pub ends_outcome : FlatEvent F → FlatEvent F → Observation F → Bool
  ends_outcome origin c x =
      not (same_server_session origin c)
      || ltb_ℤ (add64 x.closed_ms (pos 5000)) c.event.server_time_ms

  -- the loop over the events after the origin
  pub readiness_outcome :
      List (FlatEvent F) → FlatEvent F → Observation F → List String → OutcomeResult
  unfolding is_outcome outcome_of
  readiness_outcome [] origin x source_ids = no_outcome source_ids
  readiness_outcome (c ∷ cs) origin x source_ids =
      let rest = readiness_outcome cs origin x source_ids in
      if ends_outcome origin c x
      then no_outcome source_ids
      else if is_outcome c x
      then outcome_of c source_ids
      else rest

  -- what the loop of firstExposure does not skip
  pub is_exposure : FlatEvent F → Observation F → String → Bool
  unfolding is_exposed
  is_exposure c x target_id =
      (str_eq c.event.player_session_id x.observer_player_session_id
        && str_eq c.event.event_type "VISIBILITY_OBSERVATION")
      && ((str_eq c.wire.target_player_id target_id
            && str_eq c.wire.sampling_stream "event_enrichment")
          && is_exposed c.wire.classification)

  pub exposure_of : FlatEvent F → List String → ExposureResult
  unfolding midpoint
  exposure_of c source_ids =
      let lower =
        if not_positive c.wire.probe_started_ms
        then c.event.server_time_ms
        else c.wire.probe_started_ms in
      let upper =
        if ltb_ℤ c.wire.probe_completed_ms lower then lower else c.wire.probe_completed_ms in
      record {
        estimate_ms = midpoint lower upper;
        lower_ms = lower;
        upper_ms = upper;
        cause = "UNKNOWN";
        censored = false;
        source_ids = source_ids ++ c.id ∷ [];
      }

  abbrev pub ends_exposure : FlatEvent F → FlatEvent F → Observation F → Bool
  ends_exposure origin c x =
      not (same_server_session origin c)
      || ltb_ℤ (add64 x.started_ms (pos 30000)) c.event.server_time_ms

  pub first_exposure :
      List (FlatEvent F) → FlatEvent F → Observation F → String → List String → ExposureResult
  unfolding is_exposure exposure_of
  first_exposure [] origin x target_id source_ids = no_exposure source_ids
  first_exposure (c ∷ cs) origin x target_id source_ids =
      let rest = first_exposure cs origin x target_id source_ids in
      if ends_exposure origin c x
      then no_exposure source_ids
      else if is_exposure c x target_id
      then exposure_of c source_ids
      else rest
