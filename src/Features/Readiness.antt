-- ===== src/Features/Readiness.antt =====
-- internal/features/readiness.go: trials, successes and independent evidence of one player, and the
-- beta-binomial lift.
pub mod Counts
mod Witness
use dayz_behaviour.Prelude.{
  ℕ, zero, suc, ◌+◌, ◌-◌, Bool, true, false, ◌&&◌, ◌||◌, not, List, [], ◌∷◌, String, length,
  if◌then◌else◌,
}
use dayz_behaviour.Prelude.Text.{str_eq}
use dayz_behaviour.Floats.{Floats}
use dayz_behaviour.Observations.{Observation}

-- a Go set of strings: the keys, each once
pub has_key : String → List String → Bool
has_key k [] = false
has_key k (x ∷ xs) = str_eq x k || has_key k xs

pub add_key : String → List String → List String
add_key k xs = if has_key k xs then xs else k ∷ xs

pub key_set : List String → List String
key_set [] = []
key_set (x ∷ xs) = add_key x (key_set xs)

abbrev pub unexplained : String
unexplained = "UNEXPLAINED_IN_CAPTURED_DATA"

pub record Tally : Type 0 where
  pub hidden_successes : ℕ
  pub hidden_trials : ℕ
  pub control_successes : ℕ
  pub control_trials : ℕ
  pub sessions : List String
  pub encounters : List String
  pub targets : List String

abbrev pub no_tally : Tally
no_tally = record {
  hidden_successes = 0;
  hidden_trials = 0;
  control_successes = 0;
  control_trials = 0;
  sessions = [];
  encounters = [];
  targets = [];
}

pub record ReadinessResult (F : Type 0) : Type 0 where
  pub player_session_id : String
  pub hidden_successes : ℕ
  pub hidden_trials : ℕ
  pub control_successes : ℕ
  pub control_trials : ℕ
  pub hidden_posterior_mean : F
  pub hidden_lower_bound : F
  pub control_posterior_mean : F
  pub readiness_lift : F
  pub readiness_lift_lower_bound : F
  pub independent_session_count : ℕ
  pub independent_encounter_count : ℕ
  pub independent_target_count : ℕ

abbrev pub bump : Bool → ℕ → ℕ
bump b n = if b then n + 1 else n

module _ {F : Type 0} where
  -- the guard of the loop: a listed session, independent, unexplained
  pub is_candidate : List String → Observation F → Bool
  is_candidate eligible x =
      has_key x.observer_player_session_id eligible
      && x.independent
      && str_eq x.cue_class unexplained

  pub target_key : Observation F → String
  target_key x =
      if str_eq x.target_identity_key "" then x.target_player_session_id else x.target_identity_key

  note_evidence : Observation F → Tally → Tally
  note_evidence x t = record t {
    sessions = add_key x.observer_player_session_id t.sessions;
    encounters = add_key x.encounter_id t.encounters;
    targets = if str_eq (target_key x) "" then t.targets else add_key (target_key x) t.targets;
  }

  -- one round of the loop
  pub tally_one : List String → Observation F → Tally → Tally
  tally_one eligible x t =
      if not (is_candidate eligible x)
      then t
      else if x.strong_hidden_eligible
      then note_evidence x (record t {
        hidden_trials = t.hidden_trials + 1;
        hidden_successes = bump x.outcome_observed t.hidden_successes;
      })
      else if x.control_eligible
      then note_evidence x (record t {
        control_trials = t.control_trials + 1;
        control_successes = bump x.outcome_observed t.control_successes;
      })
      else t

  pub tally : List String → List (Observation F) → Tally → Tally
  tally eligible [] t = t
  tally eligible (x ∷ xs) t = tally eligible xs (tally_one eligible x t)

module _ (fl : Floats) where
  open fl use {F, lt, le, add, sub, mul, div, sqrt, of_int, ratio}

  abbrev one_float : F
  one_float = of_int 1

  pub beta_mean : F → F → F
  beta_mean alpha beta = div alpha (add alpha beta)

  pub beta_variance : F → F → F
  beta_variance alpha beta =
      let total = add alpha beta in
      div (mul alpha beta) (mul (mul total total) (add total one_float))

  pub clamp01 : F → F
  clamp01 value =
      if lt value (of_int 0) then of_int 0 else if lt one_float value then one_float else value

  -- priors that are not positive are replaced by 1
  pub prior : F → F → F → F
  prior alpha beta wanted = if le alpha (of_int 0) || le beta (of_int 0) then one_float else wanted

  finish : String → F → F → Tally → ReadinessResult F
  finish player alpha beta t =
      let hidden_a = add alpha (of_int t.hidden_successes) in
      let hidden_b = add beta (of_int (t.hidden_trials - t.hidden_successes)) in
      let control_a = add alpha (of_int t.control_successes) in
      let control_b = add beta (of_int (t.control_trials - t.control_successes)) in
      let hidden_mean = beta_mean hidden_a hidden_b in
      let hidden_variance = beta_variance hidden_a hidden_b in
      let control_mean = beta_mean control_a control_b in
      let control_variance = beta_variance control_a control_b in
      let lift = sub hidden_mean control_mean in
      record {
        player_session_id = player;
        hidden_successes = t.hidden_successes;
        hidden_trials = t.hidden_trials;
        control_successes = t.control_successes;
        control_trials = t.control_trials;
        hidden_posterior_mean = hidden_mean;
        hidden_lower_bound = clamp01 (sub hidden_mean (mul (ratio 196 100) (sqrt hidden_variance)));
        control_posterior_mean = control_mean;
        readiness_lift = lift;
        readiness_lift_lower_bound =
            sub lift (mul (ratio 196 100) (sqrt (add hidden_variance control_variance)));
        independent_session_count = length t.sessions;
        independent_encounter_count = length t.encounters;
        independent_target_count = length t.targets;
      }

  pub estimate_readiness_for_sessions :
      String → List String → List (Observation F) → F → F → ReadinessResult F
  estimate_readiness_for_sessions player session_ids input alpha beta =
      finish player (prior alpha beta alpha) (prior alpha beta beta)
        (tally (key_set session_ids) input no_tally)

  pub estimate_readiness : String → List (Observation F) → F → F → ReadinessResult F
  estimate_readiness player input alpha beta =
      estimate_readiness_for_sessions player (player ∷ []) input alpha beta
