-- ===== src/Features/PreExposure.antt =====
-- internal/features/preexposure.go: how often readiness came before the exposure.
use dayz_behaviour.Prelude.{
  ℕ, ◌+◌, ◌-◌, ◌/◌, ◌%◌, ◌==◌, Bool, ◌||◌, not, List, [], ◌∷◌, ltb, length, get_or, if◌then◌else◌,
}
use dayz_behaviour.Prelude.Int.{ℤ, pos, ltb_ℤ}
use dayz_behaviour.Prelude.Words.{add64, sub64, quot64}
use dayz_behaviour.Floats.{Floats}

pub record PreExposureIncident : Type 0 where
  pub readiness_lower_ms : ℤ
  pub readiness_upper_ms : ℤ
  pub exposure_lower_ms : ℤ
  pub exposure_upper_ms : ℤ
  pub censored : Bool

pub record PreExposureResult (F : Type 0) : Type 0 where
  pub incident_count : ℕ
  pub definite_pre_exposure_count : ℕ
  pub ambiguous_timing_count : ℕ
  pub median_lead_lower_ms : ℤ
  pub median_lead_upper_ms : ℤ
  pub pre_exposure_rate_lower : F
  pub pre_exposure_rate_upper : F

-- the counters and the leads of the loop
pub record Leads : Type 0 where
  pub incidents : ℕ
  pub definite : ℕ
  pub ambiguous : ℕ
  pub lower_leads : List ℤ
  pub upper_leads : List ℤ

insert_lead : ℤ → List ℤ → List ℤ
insert_lead x [] = x ∷ []
insert_lead x (y ∷ ys) = let rest = insert_lead x ys in if ltb_ℤ y x then y ∷ rest else x ∷ y ∷ ys

sort_leads : List ℤ → List ℤ
unfolding insert_lead
sort_leads [] = []
sort_leads (x ∷ xs) = insert_lead x (sort_leads xs)

pub median_int64 : List ℤ → ℤ
unfolding sort_leads
median_int64 values =
    let sorted = sort_leads values in
    let middle = length values / 2 in
    if length values == 0
    then pos 0
    else if length values % 2 == 1
    then get_or sorted middle (pos 0)
    else quot64 (add64 (get_or sorted (middle - 1) (pos 0)) (get_or sorted middle (pos 0))) (pos 2)

-- an interval that does not begin after 0, or that ends before it begins
abbrev is_no_interval : ℤ → ℤ → Bool
is_no_interval lower upper = not (ltb_ℤ (pos 0) lower) || ltb_ℤ upper lower

pub count_incident : PreExposureIncident → Leads → Leads
count_incident i r =
    let counted = record r { incidents = r.incidents + 1 } in
    if i.censored || is_no_interval i.exposure_lower_ms i.exposure_upper_ms
    then r
    else if is_no_interval i.readiness_lower_ms i.readiness_upper_ms
    then counted
    else if ltb_ℤ i.readiness_upper_ms i.exposure_lower_ms
    then record counted {
      definite = r.definite + 1;
      lower_leads = sub64 i.exposure_lower_ms i.readiness_upper_ms ∷ r.lower_leads;
      upper_leads = sub64 i.exposure_upper_ms i.readiness_lower_ms ∷ r.upper_leads;
    }
    else if ltb_ℤ i.readiness_lower_ms i.exposure_upper_ms
    then record counted { ambiguous = r.ambiguous + 1 }
    else counted

-- the leads are sorted before they are read, so that their order does not matter
pub count_incidents : List PreExposureIncident → Leads
unfolding count_incident
count_incidents [] = record {
  incidents = 0;
  definite = 0;
  ambiguous = 0;
  lower_leads = [];
  upper_leads = [];
}
count_incidents (i ∷ is) = count_incident i (count_incidents is)

module _ (fl : Floats) where
  open fl use {F, div, of_int}

  pub estimate_pre_exposure : List PreExposureIncident → PreExposureResult F
  unfolding count_incidents median_int64
  estimate_pre_exposure input =
      let r = count_incidents input in
      let rate =
        λ (n : ℕ). if ltb 0 r.incidents then div (of_int n) (of_int r.incidents) else of_int 0 in
      record {
        incident_count = r.incidents;
        definite_pre_exposure_count = r.definite;
        ambiguous_timing_count = r.ambiguous;
        median_lead_lower_ms = median_int64 r.lower_leads;
        median_lead_upper_ms = median_int64 r.upper_leads;
        pre_exposure_rate_lower = rate r.definite;
        pre_exposure_rate_upper = rate (r.definite + r.ambiguous);
      }
