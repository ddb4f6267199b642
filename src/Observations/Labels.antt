-- ===== src/Observations/Labels.antt =====
-- internal/observations/builder.go: the labels of an observation.
use dayz_behaviour.Prelude.{◌||◌, not, [], ◌∷◌, String, if◌then◌else◌}
use dayz_behaviour.Prelude.Int.{ℤ, pos, ltb_ℤ}
use dayz_behaviour.Prelude.Text.{str_eq}
use dayz_behaviour.Floats.{Floats}
use dayz_behaviour.Observations.Events.{BuildLib, stable_id}
use dayz_behaviour.Observations.Outcome.{is_exposed}

pub control_kind : String → String → String
control_kind classification explicit =
    if not (str_eq explicit "")
    then explicit
    else if str_eq classification "ROBUSTLY_OCCLUDED"
        || str_eq classification "HEAD_ORIGIN_OCCLUDED"
    then "HIDDEN_TARGET"
    else if is_exposed classification
    then "VISIBLE_TARGET"
    else if str_eq classification "NO_RELEVANT_TARGET"
    then "NEUTRAL_NO_RELEVANT_TARGET"
    else "OTHER"

pub population_band : ℤ → String
population_band value =
    if ltb_ℤ value (pos 10)
    then "0-9"
    else if ltb_ℤ value (pos 30)
    then "10-29"
    else if ltb_ℤ value (pos 60)
    then "30-59"
    else "60+"

module _ (fl : Floats) where
  open fl use {F, lt, of_int, ratio}

  pub distance_band : F → String
  distance_band value =
      if lt value (of_int 25)
      then "0-25"
      else if lt value (of_int 50)
      then "25-50"
      else if lt value (of_int 100)
      then "50-100"
      else if lt value (of_int 250)
      then "100-250"
      else "250+"

  pub movement_band : F → String
  movement_band value =
      if lt value (ratio 25 100)
      then "STATIONARY"
      else if lt value (of_int 2)
      then "SLOW"
      else "FAST"

module _ {F : Type 0} (lib : BuildLib F) where
  pub target_identity_key : String → String → String
  target_identity_key target_id session_id =
      if not (str_eq target_id "")
      then stable_id lib ("target-identity" ∷ target_id ∷ [])
      else if not (str_eq session_id "")
      then stable_id lib ("target-session" ∷ session_id ∷ [])
      else ""
