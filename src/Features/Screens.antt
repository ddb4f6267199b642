-- ===== src/Features/Screens.antt =====
-- internal/features/validation.go: the exploratory screens. The map of p-values comes as the list of its
-- pairs; the sort fixes an order that does not depend on it.
use dayz_behaviour.Prelude.{
  ℕ, ◌+◌, ◌-◌, ◌/◌, ◌%◌, ◌==◌, Bool, List, [], ◌∷◌, String, length, get_or, map, if◌then◌else◌,
}
use dayz_behaviour.Floats.{Floats}
use dayz_behaviour.Agent.Outbox.Scan.{text_lt}

pub record AdjustedPValue (F : Type 0) : Type 0 where
  pub id : String
  pub raw : F
  pub adjusted : F

pub record RobustCohortScore (F : Type 0) : Type 0 where
  pub median : F
  pub mad : F
  pub score : F

module _ (fl : Floats) where
  open fl use {F, lt, eq, add, sub, mul, div, abs, of_int, ratio}

  clamp_value : F → F
  clamp_value v =
      let low = if lt v (of_int 0) then of_int 0 else v in
      if lt (of_int 1) low then of_int 1 else low

  pub raw_values : List (String × F) → List (AdjustedPValue F)
  unfolding clamp_value
  raw_values [] = []
  raw_values ((id, v) ∷ rest) =
      record { id = id; raw = clamp_value v; adjusted = of_int 0 } ∷ raw_values rest

  less_value : AdjustedPValue F → AdjustedPValue F → Bool
  less_value a b = if eq a.raw b.raw then text_lt a.id b.id else lt a.raw b.raw

  insert_value : AdjustedPValue F → List (AdjustedPValue F) → List (AdjustedPValue F)
  unfolding less_value
  insert_value x [] = x ∷ []
  insert_value x (y ∷ ys) =
      let rest = insert_value x ys in if less_value y x then y ∷ rest else x ∷ y ∷ ys

  pub sort_values : List (AdjustedPValue F) → List (AdjustedPValue F)
  unfolding insert_value
  sort_values [] = []
  sort_values (x ∷ xs) = insert_value x (sort_values xs)

  pub adjust_one : ℕ → ℕ → F → F → F
  adjust_one count rank raw previous =
      let adjusted = div (mul raw (of_int count)) (of_int rank) in
      let bounded = if lt previous adjusted then previous else adjusted in
      if lt (of_int 1) bounded then of_int 1 else bounded

  -- the loop from the last value to the first: the values behind are adjusted, and the least is handed on
  adjust_from : ℕ → ℕ → List (AdjustedPValue F) → List (AdjustedPValue F) × F
  unfolding adjust_one
  adjust_from count rank [] = ([], of_int 1)
  adjust_from count rank (x ∷ xs) =
      let rest = adjust_from count (rank + 1) xs in
      let adjusted = adjust_one count rank x.raw rest.1 in
      (record x { adjusted = adjusted } ∷ rest.0, adjusted)

  pub benjamini_hochberg : List (String × F) → List (AdjustedPValue F)
  unfolding raw_values sort_values adjust_from
  benjamini_hochberg values = (adjust_from (length values) 1 (sort_values (raw_values values))).0

  insert_float : F → List F → List F
  insert_float x [] = x ∷ []
  insert_float x (y ∷ ys) = let rest = insert_float x ys in if lt y x then y ∷ rest else x ∷ y ∷ ys

  -- sort.Float64s, of numbers
  sort_floats : List F → List F
  unfolding insert_float
  sort_floats [] = []
  sort_floats (x ∷ xs) = insert_float x (sort_floats xs)

  pub sample_median : List F → F
  unfolding sort_floats
  sample_median input =
      let values = sort_floats input in
      let middle = length input / 2 in
      if length input % 2 == 1
      then get_or values middle (of_int 0)
      else div (add (get_or values (middle - 1) (of_int 0)) (get_or values middle (of_int 0)))
          (of_int 2)

  -- an empty cohort has the zero score
  pub robust_score : F → List F → RobustCohortScore F
  unfolding sample_median
  robust_score value [] = record { median = of_int 0; mad = of_int 0; score = of_int 0 }
  robust_score value (first ∷ rest) =
      let cohort = first ∷ rest in
      let median = sample_median cohort in
      let mad = sample_median (map (λ (item : F). abs (sub item median)) cohort) in
      record {
        median = median;
        mad = mad;
        score =
            if lt (of_int 0) mad
            then div (mul (ratio 67448975 100000000) (sub value median)) mad
            else of_int 0;
      }
