-- ===== src/Features/Matched/Fit/Witness.antt =====
-- The theorem on the fit, at one stratum.
use dayz_behaviour.Prelude.{ℕ, [], ◌∷◌}
use dayz_behaviour.Floats.Examples.{whole_floats}
use dayz_behaviour.Observations.Examples.{hidden_observation, control_observation}
use dayz_behaviour.Features.Validation.{MatchedStratum}
use dayz_behaviour.Features.Matched.{useful_strata_of}
use dayz_behaviour.Features.Matched.Fit.{fit_conditional_logit_for_sessions}
use dayz_behaviour.Features.Matched.Fit.Results.{
  IsSound, fit_conditional_logit_for_sessions-IsSound,
}

abbrev one_stratum : MatchedStratum ℕ
one_stratum = record {
  stratum_id = "stratum_1";
  player_session_id = "p1";
  context_key = "";
  observations = hidden_observation ∷ control_observation ∷ [];
  control_quality = 0;
}

fit_conditional_logit_for_sessions-IsSound_example :
    IsSound whole_floats
      (useful_strata_of ("p1" ∷ []) (one_stratum ∷ []))
      (fit_conditional_logit_for_sessions whole_floats "p1" ("p1" ∷ []) (one_stratum ∷ []))
fit_conditional_logit_for_sessions-IsSound_example =
    fit_conditional_logit_for_sessions-IsSound whole_floats "p1" ("p1" ∷ []) (one_stratum ∷ [])
