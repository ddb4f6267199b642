-- ===== src/Features/Matched.antt =====
-- internal/features/matched.go: exact matching within one player, and the conditional logit fit.
pub mod Fit
use Prim.Native.Char.{Char}
use Prim.Native.String.{[] as nil_text, ◌∷◌ as ◌∷ₛ◌}
use dayz_behaviour.Prelude.{
  ℕ, zero, suc, ◌+◌, ◌-◌, ◌*◌, ◌/◌, ◌%◌, ◌^◌, Bool, true, false, ◌&&◌, ◌||◌, not, Option, none,
  some, List, [], ◌∷◌, ◌++◌, String, length, ltb, leb, ◌==◌, if◌then◌else◌, min, map,
}
use dayz_behaviour.Prelude.Int.{ℤ, pos, negsuc}
use dayz_behaviour.Prelude.Text.{str_eq, ◌<>◌, digit_char}
use dayz_behaviour.Floats.{Floats}
use dayz_behaviour.Observations.{Observation}
use dayz_behaviour.Features.Readiness.{has_key, key_set, bump, unexplained}
use dayz_behaviour.Features.Validation.{MatchedStratum}
use dayz_behaviour.Features.Stability.{text_le}

-- the digits of `n`, at most as many as the 24 bytes of the buffer hold
int_digits : ℕ → ℕ → String → String
int_digits zero n out = out
int_digits (suc room) n out =
    let rest = int_digits room (n / 10) (digit_char (n % 10) ∷ₛ out) in if n == 0 then out else rest

-- negating the least int64 gives it back, so that no digit is written for it
pub int_string : ℤ → String
unfolding int_digits
int_string (pos n) = if n == 0 then "0" else int_digits 24 n ""
int_string (negsuc n) = "-" <> (if n == 2 ^ 63 - 1 then "" else int_digits 23 (n + 1) "")

-- strings.Join(parts, "|")
pub join_bar : List String → String
join_bar [] = ""
join_bar (x ∷ []) = x
join_bar (x ∷ y ∷ rest) = x <> ("|" <> join_bar (y ∷ rest))

abbrev pub Group : Type 0 → Type 0
Group F = String × List (Observation F)

module _ {F : Type 0} where
  -- what the first loop does not skip
  pub is_matchable : Observation F → Bool
  is_matchable x =
      x.independent
      && (str_eq x.cue_class unexplained && (x.strong_hidden_eligible || x.control_eligible))

  pub context_key : Observation F → String
  unfolding join_bar int_string
  context_key x = join_bar (
      x.observer_player_session_id
      ∷ x.server_id
      ∷ x.map_id
      ∷ x.area_cell
      ∷ x.observer_movement_band
      ∷ int_string x.observer_stance_id
      ∷ x.baseline_weapon_state
      ∷ x.camera_mode
      ∷ x.server_population_band
      ∷ x.cue_class
      ∷ x.sampling_policy_version
      ∷ [])

  -- groups[key] = append(groups[key], observation)
  pub add_to_group : String → Observation F → List (Group F) → List (Group F)
  add_to_group key x [] = (key, x ∷ []) ∷ []
  add_to_group key x ((k, xs) ∷ gs) =
      let rest = add_to_group key x gs in
      if str_eq k key then (k, xs ++ x ∷ []) ∷ gs else (k, xs) ∷ rest

  pub group_all : List (Observation F) → List (Group F) → List (Group F)
  group_all [] gs = gs
  group_all (x ∷ xs) gs =
      group_all xs (if is_matchable x then add_to_group (context_key x) x gs else gs)

  pub insert_group : Group F → List (Group F) → List (Group F)
  insert_group g [] = g ∷ []
  insert_group g (h ∷ hs) =
      let rest = insert_group g hs in if text_le g.0 h.0 then g ∷ h ∷ hs else h ∷ rest

  -- the keys of a map are distinct, so that sorting them is sorting the groups
  pub sort_groups : List (Group F) → List (Group F)
  sort_groups [] = []
  sort_groups (g ∷ gs) = insert_group g (sort_groups gs)

  pub insert_by_id : Observation F → List (Observation F) → List (Observation F)
  insert_by_id x [] = x ∷ []
  insert_by_id x (y ∷ ys) =
      let rest = insert_by_id x ys in
      if text_le x.observation_id y.observation_id then x ∷ y ∷ ys else y ∷ rest

  -- sort.Slice by ObservationID
  pub sort_by_id : List (Observation F) → List (Observation F)
  sort_by_id [] = []
  sort_by_id (x ∷ xs) = insert_by_id x (sort_by_id xs)

  abbrev pub count_hidden : List (Observation F) → ℕ
  count_hidden [] = 0
  count_hidden (x ∷ xs) = bump x.strong_hidden_eligible (count_hidden xs)

  abbrev pub count_controls : List (Observation F) → ℕ
  count_controls [] = 0
  count_controls (x ∷ xs) = bump x.control_eligible (count_controls xs)

  abbrev pub count_outcomes : List (Observation F) → ℕ
  count_outcomes [] = 0
  count_outcomes (x ∷ xs) = bump x.outcome_observed (count_outcomes xs)

  abbrev pub count_hidden_outcomes : List (Observation F) → ℕ
  count_hidden_outcomes [] = 0
  count_hidden_outcomes (x ∷ xs) =
      bump (x.outcome_observed && x.strong_hidden_eligible) (count_hidden_outcomes xs)

  abbrev pub first_session : List (Observation F) → String
  first_session [] = ""
  first_session (x ∷ xs) = x.observer_player_session_id

  -- one key: groups without a hidden opportunity or without a control give no stratum
  pub strata_of : (String → String) → F → List (Group F) → List (MatchedStratum F)
  strata_of hash16 half [] = []
  strata_of hash16 half ((key, items) ∷ gs) =
      let rest = strata_of hash16 half gs in
      if count_hidden items == 0 || count_controls items == 0
      then rest
      else record {
        stratum_id = "stratum_" <> hash16 key;
        player_session_id = first_session (sort_by_id items);
        context_key = key;
        observations = sort_by_id items;
        control_quality = half;
      }
        ∷ rest

  -- `hash16` is the hexadecimal half of a SHA-256
  pub build_matched_strata : (String → String) → F → List (Observation F) → List (MatchedStratum F)
  build_matched_strata hash16 half input = strata_of hash16 half (sort_groups (group_all input []))

-- the four counts of one stratum
pub record Sufficient : Type 0 where
  pub hidden : ℕ
  pub control : ℕ
  pub outcomes : ℕ
  pub observed_hidden : ℕ

abbrev pub is_uninformative : Sufficient → Bool
is_uninformative v =
    v.hidden == 0 || v.control == 0 || v.outcomes == 0 || v.outcomes == v.hidden + v.control

pub record ConditionalLogitResult (F : Type 0) : Type 0 where
  pub player_session_id : String
  pub log_odds_ratio : F
  pub odds_ratio : F
  pub lower95 : F
  pub upper95 : F
  pub standard_error : F
  pub useful_strata : ℕ
  pub observation_count : ℕ
  pub converged : Bool
  pub separated : Bool

module _ {F : Type 0} where
  pub sufficient : List (Observation F) → Sufficient
  sufficient items = record {
    hidden = count_hidden items;
    control = count_controls items;
    outcomes = count_outcomes items;
    observed_hidden = count_hidden_outcomes items;
  }

  pub useful_strata_of : List String → List (MatchedStratum F) → List Sufficient
  useful_strata_of eligible [] = []
  useful_strata_of eligible (s ∷ ss) =
      let rest = useful_strata_of eligible ss in
      let v = sufficient s.observations in
      if not (has_key s.player_session_id eligible) || is_uninformative v then rest else v ∷ rest

abbrev pub total_observations : List Sufficient → ℕ
total_observations [] = 0
total_observations (v ∷ vs) = (v.hidden + v.control) + total_observations vs
