-- ===== src/Observations/Cues.antt =====
-- internal/observations/builder.go: cueClass, the cue that may explain a reaction to the target.
use dayz_behaviour.Prelude.{
  Bool, ◌&&◌, ◌||◌, not, Option, none, some, List, [], ◌∷◌, String, if◌then◌else◌,
}
use dayz_behaviour.Prelude.Int.{ℤ, pos, ltb_ℤ}
use dayz_behaviour.Prelude.Words.{sub64}
use dayz_behaviour.Prelude.Text.{str_eq}
use dayz_behaviour.Observations.{CueFact}
use dayz_behaviour.Observations.Events.{FlatEvent, same_server_session}

-- the class and the fact
abbrev pub Cue : Type 0
Cue = String × Option CueFact

abbrev pub no_cue : Cue
no_cue = ("UNEXPLAINED_IN_CAPTURED_DATA", none)

module _ {F : Type 0} where
  pub shows_target : FlatEvent F → String → Bool
  shows_target e target_id =
      str_eq e.event.event_type "VISIBILITY_OBSERVATION"
      && (str_eq e.wire.target_player_id target_id
          && (str_eq e.wire.classification "EXPOSED"
              || str_eq e.wire.classification "PARTIALLY_EXPOSED"))

  pub combat_by : FlatEvent F → String → Bool
  combat_by e target_id =
      (str_eq e.event.event_type "PLAYER_HIT" || str_eq e.event.event_type "PLAYER_KILLED")
      && str_eq e.wire.source_player_id target_id

  pub cue_fact : String → String → FlatEvent F → CueFact
  cue_fact cue_type details e = record {
    cue_type = cue_type;
    source_event_id = e.id;
    occurred_ms = e.event.server_time_ms;
    details = details;
    source_authority = e.event.source_authority;
  }

  -- where the loop breaks: another server session, or thirty seconds back
  abbrev pub ends_lookback : FlatEvent F → FlatEvent F → ℤ → Bool
  ends_lookback origin e at_ms =
      not (same_server_session origin e) || ltb_ℤ (pos 30000) (sub64 at_ms e.event.server_time_ms)

  -- the loop over the events before the origin, the latest first
  pub look_back : List (FlatEvent F) → FlatEvent F → String → String → ℤ → Cue
  unfolding shows_target combat_by cue_fact
  look_back [] origin observer target_id at_ms = no_cue
  look_back (e ∷ es) origin observer target_id at_ms =
      let rest = look_back es origin observer target_id at_ms in
      if ends_lookback origin e at_ms
      then no_cue
      else if not (str_eq e.event.player_session_id observer)
      then rest
      else if shows_target e target_id
      then (
        "KNOWN",
        some (
            cue_fact "RECENT_VISUAL_EXPOSURE"
              "captured exposed or partially exposed visibility observation" e),
      )
      else if combat_by e target_id
      then (
        "PLAUSIBLE",
        some (cue_fact "RECENT_COMBAT_CONTACT" "captured hit or kill attributed to the target" e),
      )
      else rest

  pub cue_class : List (FlatEvent F) → FlatEvent F → String → String → ℤ → Cue
  unfolding look_back
  cue_class before origin observer target_id at_ms =
      if str_eq target_id "" then no_cue else look_back before origin observer target_id at_ms
