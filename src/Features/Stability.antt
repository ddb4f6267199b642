-- ===== src/Features/Stability.antt =====
-- internal/features/stability.go: the lift with each session left out.
use Prim.Native.String.{compare}
use Prim.Native.Nat.{Ordering}
use dayz_behaviour.Prelude.{
  ℕ, Bool, true, false, List, [], ◌∷◌, ◌++◌, String, length, ltb, if◌then◌else◌,
}
use dayz_behaviour.Floats.{Floats}
use dayz_behaviour.Observations.{Observation}
use dayz_behaviour.Features.Readiness.{ReadinessResult, estimate_readiness_for_sessions}

pub record StabilityResult (F : Type 0) : Type 0 where
  pub session_count : ℕ
  pub minimum_lift : F
  pub maximum_lift : F
  pub maximum_rank_change : ℕ
  pub direction_stable : Bool

pub text_le : String → String → Bool
text_le a b = elim (compare a b) [ Ordering.gt ↦ false | _ ↦ true ]

pub insert_text : String → List String → List String
insert_text x [] = x ∷ []
insert_text x (y ∷ ys) = let rest = insert_text x ys in if text_le x y then x ∷ y ∷ ys else y ∷ rest

-- sort.Strings
pub sort_strings : List String → List String
sort_strings [] = []
sort_strings (x ∷ xs) = insert_text x (sort_strings xs)

module _ (fl : Floats) where
  open fl use {F, lt, le, of_int, infinity, minus_infinity}

  -- one round: what the estimate without one session does to the result
  pub note_estimate : ReadinessResult F → StabilityResult F → StabilityResult F
  note_estimate e r = record r {
    minimum_lift = if lt e.readiness_lift r.minimum_lift then e.readiness_lift else r.minimum_lift;
    maximum_lift = if lt r.maximum_lift e.readiness_lift then e.readiness_lift else r.maximum_lift;
    direction_stable =
        if le e.readiness_lift_lower_bound (of_int 0) then false else r.direction_stable;
  }

  module _ (player : String) (input : List (Observation F)) (alpha beta : F) where
    pub without : List String → ReadinessResult F
    without kept = estimate_readiness_for_sessions fl player kept input alpha beta

    -- the loop: `before` are the sessions already left out, the next ones follow
    pub leave_out : List String → List String → StabilityResult F → StabilityResult F
    leave_out before [] r = r
    leave_out before (x ∷ after) r =
        leave_out (before ++ x ∷ []) after (note_estimate (without (before ++ after)) r)

    pub leave_one_session_out : List String → StabilityResult F
    leave_one_session_out session_ids =
        let start : StabilityResult F = record {
          session_count = length session_ids;
          minimum_lift = infinity;
          maximum_lift = minus_infinity;
          maximum_rank_change = 0;
          direction_stable = true;
        } in
        if ltb (length session_ids) 2
        then record {
          session_count = length session_ids;
          minimum_lift = of_int 0;
          maximum_lift = of_int 0;
          maximum_rank_change = 0;
          direction_stable = false;
        }
        else leave_out [] (sort_strings session_ids) start
