-- ===== src/Features/Validation/Unavailable.antt =====
-- internal/features/validation.go: the controls that cannot run yet.
use dayz_behaviour.Prelude.{◌≡◌, false, List, arith}
use dayz_behaviour.Floats.{Floats}
use dayz_behaviour.Features.Validation.{
  MatchedStratum, all_passed, unavailable, run_negative_controls,
}

-- The controls never pass: four of the six are unavailable whatever the strata and the limit are.
pub run_negative_controls-fails :
    (fl : Floats) (strata : List (MatchedStratum fl.F)) (limit : fl.F)
    → (run_negative_controls fl strata limit).passed ≡ false
unfolding run_negative_controls all_passed unavailable
run_negative_controls-fails fl strata limit = ground arith
