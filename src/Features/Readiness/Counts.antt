-- ===== src/Features/Readiness/Counts.antt =====
-- internal/features/readiness.go: the tally of EstimateReadinessForSessions, beside filters over its input.
use dayz_behaviour.Prelude.{
  ℕ, ◌+◌, ◌≡◌, refl, ap, Bool, false, ◌&&◌, ◌||◌, not, List, [], ◌∷◌, String, length, arith,
  Bool-cases, inl, inr, if◌then◌else◌,
}
use dayz_behaviour.Prelude.Text.{str_eq, eq_iff}
use dayz_behaviour.Observations.{Observation}
use dayz_behaviour.Floats.{Floats}
use dayz_behaviour.Features.Readiness.{
  has_key, add_key, key_set, Tally, no_tally, ReadinessResult, is_candidate, target_key,
  note_evidence, tally_one, tally, finish, estimate_readiness_for_sessions,
}

abbrev pub any {ℓ} : {A : Type ℓ} → (A → Bool) → List A → Bool
any p [] = false
any p (x ∷ xs) = p x || any p xs

abbrev pub count_where {ℓ} : {A : Type ℓ} → (A → Bool) → List A → ℕ
count_where p [] = 0
count_where p (x ∷ xs) = let rest = count_where p xs in if p x then rest + 1 else rest

abbrev pub AllOnce : List String → Type 0
AllOnce [] = Unit
AllOnce (x ∷ xs) = (has_key x xs ≡ false) × AllOnce xs

pub has_key-add_key :
    (k x : String) (xs : List String) → has_key k (add_key x xs) ≡ (str_eq x k || has_key k xs)
unfolding add_key has_key
has_key-add_key k x xs = elim (Bool-cases (has_key x xs)) [
  | inl old ↦ elim (Bool-cases (str_eq x k)) [
    | inl same ↦ ground (arith, ap (λ (y : String). has_key y xs) ((eq_iff x k).0 same))
    | inr other ↦ ground arith
  ]
  | inr new ↦ ground arith
]

pub AllOnce-add_key : (x : String) (xs : List String) → AllOnce xs → AllOnce (add_key x xs)
unfolding add_key
AllOnce-add_key x xs h = elim (Bool-cases (has_key x xs)) [
  | inl old ↦ rw (old, add_key) h
  | inr new ↦ rw (new, add_key) (new, h)
]

abbrev pub SetsOnce : Tally → Type 0
SetsOnce t = AllOnce t.sessions × AllOnce t.encounters × AllOnce t.targets

abbrev pub is_among : List String → String → Bool
is_among ids k = any (λ (s : String). str_eq s k) ids

has_key-key_set : (k : String) (ids : List String) → has_key k (key_set ids) ≡ is_among ids k
unfolding key_set has_key
has_key-key_set k [] = refl
has_key-key_set k (x ∷ ids) =
    ground (arith, has_key-add_key k x (key_set ids), has_key-key_set k ids)

-- the target of an observation: its durable identity, else its session
abbrev pub target_of : {F : Type 0} → Observation F → String
target_of x =
    if str_eq x.target_identity_key "" then x.target_player_session_id else x.target_identity_key

module _ {F : Type 0} (ids : List String) where
  -- an independent observation of a listed session that no captured cue explains
  abbrev pub is_admissible : Observation F → Bool
  is_admissible x =
      x.independent
      && str_eq x.cue_class "UNEXPLAINED_IN_CAPTURED_DATA"
      && is_among ids x.observer_player_session_id

  -- a hidden-target trial, a control trial, and either
  pub is_hidden : Observation F → Bool
  is_hidden x = is_admissible x && x.strong_hidden_eligible

  pub is_control : Observation F → Bool
  is_control x = is_admissible x && (not x.strong_hidden_eligible && x.control_eligible)

  abbrev pub is_trial : Observation F → Bool
  is_trial x = is_hidden x || is_control x

  -- what the tally of the observations `xs` adds to a tally `t`
  pub record IsTally (xs : List (Observation F)) (t r : Tally) : Type 0 where
    pub hidden : r.hidden_trials ≡ t.hidden_trials + count_where is_hidden xs
    pub hidden_hits :
        r.hidden_successes
        ≡ t.hidden_successes
          + count_where (λ (x : Observation F). is_hidden x && x.outcome_observed) xs
    pub control : r.control_trials ≡ t.control_trials + count_where is_control xs
    pub control_hits :
        r.control_successes
        ≡ t.control_successes
          + count_where (λ (x : Observation F). is_control x && x.outcome_observed) xs
    pub sessions :
        (k : String)
        → has_key k r.sessions ≡ (
            has_key k t.sessions
            || any (λ (x : Observation F). is_trial x && str_eq x.observer_player_session_id k) xs)
    pub encounters :
        (k : String)
        → has_key k r.encounters ≡ (
            has_key k t.encounters
            || any (λ (x : Observation F). is_trial x && str_eq x.encounter_id k) xs)
    pub targets :
        (k : String)
        → has_key k r.targets ≡ (
            has_key k t.targets
            || any
                (λ (x : Observation F).
                  is_trial x && (not (str_eq (target_of x) "") && str_eq (target_of x) k))
                xs)

  module _ (eligible : List String)
      (listed : (k : String) → has_key k eligible ≡ is_among ids k) where
    tally_one-IsTally :
        (x : Observation F) (t : Tally) → IsTally (x ∷ []) t (tally_one eligible x t)
    unfolding tally_one note_evidence is_candidate target_key is_hidden is_control
    tally_one-IsTally x t = record {
      hidden = ground (arith, listed x.observer_player_session_id);
      hidden_hits = ground (arith, listed x.observer_player_session_id);
      control = ground (arith, listed x.observer_player_session_id);
      control_hits = ground (arith, listed x.observer_player_session_id);
      sessions = λ k. ground (
        arith,
        listed x.observer_player_session_id,
        has_key-add_key k x.observer_player_session_id t.sessions,
      );
      encounters = λ k. ground (
        arith,
        listed x.observer_player_session_id,
        has_key-add_key k x.encounter_id t.encounters,
      );
      targets = λ k.
          ground (
            arith,
            listed x.observer_player_session_id,
            has_key-add_key k (target_key x) t.targets,
          );
    }

    tally-IsTally : (xs : List (Observation F)) (t : Tally) → IsTally xs t (tally eligible xs t)
    unfolding tally
    tally-IsTally [] t = record {
      hidden = omega arith;
      hidden_hits = omega arith;
      control = omega arith;
      control_hits = omega arith;
      sessions = λ k. ground arith;
      encounters = λ k. ground arith;
      targets = λ k. ground arith;
    }
    tally-IsTally (x ∷ xs) t =
        let one = tally_one-IsTally x t in
        let rest = tally-IsTally xs (tally_one eligible x t) in
        record {
          hidden = ground (arith, one.hidden, rest.hidden);
          hidden_hits = ground (arith, one.hidden_hits, rest.hidden_hits);
          control = ground (arith, one.control, rest.control);
          control_hits = ground (arith, one.control_hits, rest.control_hits);
          sessions = λ k. ground (arith, one.sessions k, rest.sessions k);
          encounters = λ k. ground (arith, one.encounters k, rest.encounters k);
          targets = λ k. ground (arith, one.targets k, rest.targets k);
        }

module _ {F : Type 0} (eligible : List String) where
  tally_one-SetsOnce :
      (x : Observation F) (t : Tally) → SetsOnce t → SetsOnce (tally_one eligible x t)
  unfolding tally_one note_evidence
  tally_one-SetsOnce x t h = ground (
    arith,
    AllOnce-add_key x.observer_player_session_id t.sessions h.0,
    AllOnce-add_key x.encounter_id t.encounters h.1,
    AllOnce-add_key (target_key x) t.targets h.2,
  )

  tally-SetsOnce :
      (xs : List (Observation F)) (t : Tally) → SetsOnce t → SetsOnce (tally eligible xs t)
  unfolding tally
  tally-SetsOnce [] t h = h
  tally-SetsOnce (x ∷ xs) t h =
      tally-SetsOnce xs (tally_one eligible x t) (tally_one-SetsOnce x t h)

-- `n` is the number of the different keys that occur
abbrev pub CountsKeys : ℕ → (String → Bool) → Type 0
CountsKeys n occurs =
    (keys : List String) × AllOnce keys
    × ((k : String) → has_key k keys ≡ occurs k)
    × (n ≡ length keys)

-- The counts of a readiness result, described by filters over the input.
pub record IsCounted {F : Type 0} (ids : List String) (xs : List (Observation F))
    (r : ReadinessResult F) : Type 0 where
  pub hidden : r.hidden_trials ≡ count_where (is_hidden ids) xs
  pub hidden_hits : r.hidden_successes ≡ count_where (λ x. is_hidden ids x && x.outcome_observed) xs
  pub control : r.control_trials ≡ count_where (is_control ids) xs
  pub control_hits :
      r.control_successes ≡ count_where (λ x. is_control ids x && x.outcome_observed) xs
  pub sessions :
      CountsKeys r.independent_session_count
        (λ k. any (λ x. is_trial ids x && str_eq x.observer_player_session_id k) xs)
  pub encounters :
      CountsKeys r.independent_encounter_count
        (λ k. any (λ x. is_trial ids x && str_eq x.encounter_id k) xs)
  pub targets : CountsKeys r.independent_target_count (λ k.
      any (λ x. is_trial ids x && (not (str_eq (target_of x) "") && str_eq (target_of x) k)) xs)

module _ (fl : Floats) where
  open fl use {F}

  -- The trials and successes of an estimate are the numbers of the independent, unexplained
  -- observations of the listed sessions that are hidden, or controls and not hidden; its three
  -- breadth counts are the numbers of different sessions, encounters and targets among those
  -- trials, a target named by its durable identity or else its session, and not counted without
  -- either.
  pub estimate_readiness-IsCounted :
      (player : String) (session_ids : List String) (input : List (Observation F)) (alpha beta : F)
      → IsCounted session_ids input
          (estimate_readiness_for_sessions fl player session_ids input alpha beta)
  unfolding estimate_readiness_for_sessions finish has_key
  estimate_readiness-IsCounted player session_ids input alpha beta =
      let t = tally (key_set session_ids) input no_tally in
      let h =
        tally-IsTally session_ids (key_set session_ids) (λ k. has_key-key_set k session_ids) input
          no_tally in
      let once = tally-SetsOnce (key_set session_ids) input no_tally (tt, tt, tt) in
      record {
        hidden = ground (arith, h.hidden);
        hidden_hits = ground (arith, h.hidden_hits);
        control = ground (arith, h.control);
        control_hits = ground (arith, h.control_hits);
        sessions = (t.sessions, once.0, h.sessions, refl);
        encounters = (t.encounters, once.1, h.encounters, refl);
        targets = (t.targets, once.2, h.targets, refl);
      }
