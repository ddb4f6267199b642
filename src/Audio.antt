-- ===== src/Audio.antt =====
-- internal/audio/model.go: how likely a sound was heard. float64 is a parameter, and so are
-- strings.ToUpper and strings.ToLower.
use dayz_behaviour.Prelude.{Bool, false, ◌&&◌, ◌||◌, not, List, [], ◌∷◌, String, if◌then◌else◌}
use dayz_behaviour.Prelude.Text.{str_eq, trim}
use dayz_behaviour.Floats.{Floats}
use dayz_behaviour.Agent.Outbox.Scan.{contains}

pub data Audibility : Type 0 where
  not_audible possible likely strong : Audibility

pub record AudioResult (F : Type 0) : Type 0 where
  pub audibility : Audibility
  pub likely_range : F
  pub maximum_range : F

pub record GunshotInput (F : Type 0) : Type 0 where
  pub distance : F
  pub suppressed : Bool

pub record FootstepInput (F : Type 0) : Type 0 where
  pub distance : F
  pub speed : F
  pub stance : String
  pub surface_type : String
  pub footwear : String

pub record CaseLib : Type 0 where
  pub to_upper : String → String
  pub to_lower : String → String

contains_any : String → List String → Bool
contains_any value [] = false
contains_any value (needle ∷ needles) = contains value needle || contains_any value needles

module _ (fl : Floats) where
  open fl use {F, lt, le, eq, mul, of_int, ratio, infinity, minus_infinity}

  -- math.IsNaN(x) || math.IsInf(x, 0)
  is_not_finite : F → Bool
  is_not_finite x = not (eq x x) || (eq x infinity || eq x minus_infinity)

  pub classify : F → F → F → F → AudioResult F
  unfolding is_not_finite
  classify distance strong_range likely_range maximum_range = record {
    audibility =
        if lt distance (of_int 0) || is_not_finite distance
        then not_audible
        else if lt (of_int 0) strong_range && le distance strong_range
        then strong
        else if le distance likely_range
        then likely
        else if le distance maximum_range
        then possible
        else not_audible;
    likely_range = likely_range;
    maximum_range = maximum_range;
  }

  pub classify_gunshot : GunshotInput F → AudioResult F
  classify_gunshot input =
      if input.suppressed
      then classify input.distance (of_int 60) (of_int 160) (of_int 350)
      else classify input.distance (of_int 300) (of_int 900) (of_int 1800)

  module _ (lib : CaseLib) where
    pub surface_multiplier : String → F
    unfolding contains_any
    surface_multiplier value =
        let lower = lib.to_lower value in
        if contains_any lower
          ("metal" ∷ "concrete" ∷ "asphalt" ∷ "road" ∷ "gravel" ∷ "wood" ∷ "floor" ∷ "stone" ∷ [])
        then ratio 125 100
        else if contains_any lower
            ("grass" ∷ "forest" ∷ "soil" ∷ "dirt" ∷ "sand" ∷ "snow" ∷ "moss" ∷ [])
        then ratio 8 10
        else of_int 1

    pub footwear_multiplier : String → F
    unfolding contains_any
    footwear_multiplier value =
        let lower = lib.to_lower (trim value) in
        if str_eq lower "" || contains_any lower ("barefoot" ∷ "none" ∷ [])
        then ratio 75 100
        else if contains_any lower ("boot" ∷ "combat" ∷ "hiking" ∷ "wellies" ∷ [])
        then ratio 11 10
        else of_int 1

    speed_range : F → F
    speed_range speed =
        if le (ratio 45 10) speed
        then of_int 24
        else if le (ratio 25 10) speed
        then of_int 16
        else if le (ratio 12 10) speed
        then of_int 9
        else of_int 4

    -- the range after the stance
    stance_range : String → F → F
    stance_range stance range =
        if contains stance "PRONE"
        then mul range (ratio 45 100)
        else if contains stance "CROUCH"
        then mul range (ratio 7 10)
        else range

    pub classify_footstep : FootstepInput F → AudioResult F
    unfolding speed_range stance_range surface_multiplier footwear_multiplier
    classify_footstep input =
        let range =
          mul
            (mul (stance_range (lib.to_upper input.stance) (speed_range input.speed))
              (surface_multiplier input.surface_type))
            (footwear_multiplier input.footwear) in
        if lt input.speed (ratio 25 100)
        then record { audibility = not_audible; likely_range = of_int 0; maximum_range = of_int 0 }
        else classify input.distance (of_int 0) range (mul range (ratio 175 100))
