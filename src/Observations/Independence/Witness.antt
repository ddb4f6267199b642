-- ===== src/Observations/Independence/Witness.antt =====
-- The theorem on the refractory time, at two observations of one observer.
use dayz_behaviour.Prelude.{refl, [], ◌∷◌, arith}
use dayz_behaviour.Prelude.Int.{pos}
use dayz_behaviour.Observations.Examples.{hidden_observation}
use dayz_behaviour.Observations.Events.{default_config}
use dayz_behaviour.Observations.Events.Examples.{sample_build_lib}
use dayz_behaviour.Observations.Independence.{assign_independence}
use dayz_behaviour.Observations.Independence.Spread.{IsSpread, assign_independence-IsSpread}

assign_independence-IsSpread_example : IsSpread 5000 (
    assign_independence sample_build_lib default_config
      (hidden_observation ∷ record hidden_observation { started_ms = pos 4000 } ∷ []))
assign_independence-IsSpread_example =
    assign_independence-IsSpread sample_build_lib default_config 5000 refl
      (hidden_observation ∷ record hidden_observation { started_ms = pos 4000 } ∷ [])
      ((0, refl, omega arith), ((4000, refl, omega arith), tt))
