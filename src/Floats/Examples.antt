-- ===== src/Floats/Examples.antt =====
-- Whole numbers in the place of float64, for examples.
use dayz_behaviour.Prelude.{ℕ, ◌+◌, ◌-◌, ◌*◌, ◌/◌, ltb, leb, ◌==◌}
use dayz_behaviour.Floats.{Floats}

abbrev pub whole_floats : Floats
whole_floats = record {
  F = ℕ;
  lt = ltb;
  le = leb;
  eq = λ a b. a == b;
  add = λ a b. a + b;
  sub = λ a b. a - b;
  mul = λ a b. a * b;
  div = λ a b. a / b;
  sqrt = λ a. a;
  abs = λ a. a;
  exp = λ a. a;
  lgamma = λ a. a;
  neg = λ a. 0;
  of_int = λ n. n;
  ratio = λ p q. p / q;
  infinity = 1000000;
  minus_infinity = 0;
}
