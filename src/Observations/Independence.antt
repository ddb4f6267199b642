-- ===== src/Observations/Independence.antt =====
-- internal/observations/builder.go: assignIndependence, the refractory period of an observer and the
-- episodes and encounters of a pair.
pub mod Spread
mod Witness
use dayz_behaviour.Prelude.{
  ℕ, ◌+◌, ◌==◌, Bool, true, false, ◌&&◌, ◌||◌, not, Option, none, some, List, [], ◌∷◌, String,
  if◌then◌else◌,
}
use dayz_behaviour.Prelude.Int.{ℤ, pos, negsuc, ltb_ℤ}
use dayz_behaviour.Prelude.Words.{sub64}
use dayz_behaviour.Prelude.Text.{str_eq, ◌<>◌}
use dayz_behaviour.Observations.{Observation}
use dayz_behaviour.Observations.Events.{Config, BuildLib, stable_id}

pub record GroupState : Type 0 where
  pub last_ms : ℤ
  pub episode_index : ℕ
  pub encounter_index : ℕ

abbrev pub new_group : GroupState
new_group = record { last_ms = pos 0; episode_index = 0; encounter_index = 0 }

-- lastFeatureByObserver, and groups, where a missing pair has the zero state
pub record Spacing : Type 0 where
  pub last_feature : String → Option ℤ
  pub groups : String → GroupState

abbrev pub no_spacing : Spacing
no_spacing = record { last_feature = λ q. none; groups = λ q. new_group }

abbrev is_zero : ℤ → Bool
is_zero (pos n) = n == 0
is_zero (negsuc n) = false

abbrev pub set_last : String → ℤ → (String → Option ℤ) → String → Option ℤ
set_last k ms last q = if str_eq k q then some ms else last q

abbrev set_group : String → GroupState → (String → GroupState) → String → GroupState
set_group k g groups q = if str_eq k q then g else groups q

-- an index grows at the first observation of the pair and after a gap
pub next_index : ℤ → ℤ → GroupState → ℕ → ℕ
next_index gap started g index =
    if is_zero g.last_ms || ltb_ℤ gap (sub64 started g.last_ms) then index + 1 else index

-- the observer's last feature is less than the refractory time ago
pub is_refractory : Config → ℤ → Option ℤ → Bool
is_refractory config started none = false
is_refractory config started (some previous) = ltb_ℤ (sub64 started previous) config.refractory_ms

module _ {F : Type 0} where
  unfoldable pub withdraw : Observation F → Observation F
  withdraw x = record x {
    independent = false;
    strong_hidden_eligible = false;
    control_eligible = false;
    positive_control_eligible = false;
  }

  abbrev pub pair_of : Observation F → String
  pair_of x = x.observer_player_session_id <> ("|" <> x.target_player_session_id)

  pub next_group : Config → Observation F → GroupState → GroupState
  unfolding next_index
  next_group config x g = record {
    last_ms = x.started_ms;
    episode_index = next_index config.episode_gap_ms x.started_ms g g.episode_index;
    encounter_index = next_index config.encounter_gap_ms x.started_ms g g.encounter_index;
  }

module _ {F : Type 0} (lib : BuildLib F) (config : Config) where
  unfoldable pub name_groups : Observation F → GroupState → Observation F
  name_groups x g = record x {
    observer_target_episode_id =
        stable_id lib
          ("episode" ∷ pair_of x ∷ lib.print_nat g.episode_index ∷ "episode-window-v1" ∷ []);
    encounter_id =
        stable_id lib
          ("encounter" ∷ pair_of x ∷ lib.print_nat g.encounter_index ∷ "episode-window-v1" ∷ []);
  }

  abbrev pub is_spaced : Observation F → Spacing → Bool
  is_spaced x s =
      not (is_refractory config x.started_ms (s.last_feature x.observer_player_session_id))

  -- one round of the loop: the observation, and the state after it
  unfoldable pub space_one : Observation F → Spacing → Observation F
  unfolding name_groups withdraw is_refractory
  space_one x s =
      let named = name_groups x (next_group config x (s.groups (pair_of x))) in
      if is_spaced x s then named else withdraw named

  pub space_next : Observation F → Spacing → Spacing
  unfolding is_refractory next_group
  space_next x s = record {
    last_feature =
        if is_spaced x s
        then set_last x.observer_player_session_id x.started_ms s.last_feature
        else s.last_feature;
    groups = set_group (pair_of x) (next_group config x (s.groups (pair_of x))) s.groups;
  }

  unfoldable pub space_all : List (Observation F) → Spacing → List (Observation F)
  unfolding space_one space_next
  space_all [] s = []
  space_all (x ∷ xs) s = space_one x s ∷ space_all xs (space_next x s)

  unfoldable pub assign_independence : List (Observation F) → List (Observation F)
  unfolding space_all
  assign_independence xs = space_all xs no_spacing
