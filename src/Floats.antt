-- ===== src/Floats.antt =====
-- float64, as the analysis uses it: the type and its operations are parameters, and a comparison with
-- a NaN is false. `ratio p q` is the literal p / q, and `of_int` is float64(n).
pub mod Examples
use dayz_behaviour.Prelude.{ℕ, Bool, List}
use dayz_behaviour.Prelude.Int.{ℤ}

pub record Floats : Type 1 where
  pub F : Type 0
  pub lt : F → F → Bool
  pub le : F → F → Bool
  pub eq : F → F → Bool
  pub add : F → F → F
  pub sub : F → F → F
  pub mul : F → F → F
  pub div : F → F → F
  pub sqrt : F → F
  pub abs : F → F
  pub exp : F → F
  pub lgamma : F → F
  pub neg : F → F
  pub of_int : ℕ → F
  pub ratio : ℕ → ℕ → F
  pub infinity : F
  pub minus_infinity : F
