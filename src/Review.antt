-- ===== src/Review.antt =====
-- internal/review/api.go: the repository in memory, and the API on it. The lock serialises the methods.
-- The JSON bodies, the parsers of numbers and of dates, and the clock are inputs; a time is an integer.
pub mod Api
use dayz_behaviour.Prelude.{
  ℕ, ◌+◌, ◌-◌, Bool, true, false, ◌&&◌, ◌||◌, not, Option, none, some, List, [], ◌∷◌, ◌++◌, String,
  ltb, if◌then◌else◌,
}
use Prim.Native.String.{slice}
use dayz_behaviour.Prelude.Int.{ℤ, ltb_ℤ}
use dayz_behaviour.Prelude.Text.{str_eq, is_blank, starts_with, len, ◌<>◌}
use dayz_behaviour.Agent.Outbox.Scan.{text_lt}

-- what the API reads of a candidate; the rest of it is `detail`
pub record Candidate (F : Type 0) : Type 0 where
  pub candidate_id : String
  pub server_id : String
  pub camera_mode : String
  pub squad_status : String
  pub feature_family : String
  pub review_priority : String
  pub control_quality : F
  pub created_at : ℤ
  pub detail : String

pub record Incident : Type 0 where
  pub incident_id : String
  pub detail : String

pub record Disposition : Type 0 where
  pub case_id : String
  pub reviewer_id : String
  pub disposition : String
  pub notes : String
  pub created_at : ℤ

pub record Case : Type 0 where
  pub case_id : String
  pub candidate_id : String
  pub status : String
  pub created_at : ℤ

pub record ReplayRun : Type 0 where
  pub run_id : String
  pub status : String
  pub requested_by : String
  pub created_at : ℤ

pub record AlgorithmRun : Type 0 where
  pub run_id : String
  pub status : String
  pub detail : String

-- a map is the list of its values, with at most one for an id
pub record MemoryRepository (F : Type 0) : Type 0 where
  pub candidates : List (Candidate F)
  pub incidents : List Incident
  pub cases : List Case
  pub replay_runs : List ReplayRun
  pub algorithm_runs : List AlgorithmRun
  pub dispositions : List Disposition

pub data ReviewError : Type 0 where
  run_fields_required disposition_fields_required : ReviewError

module _ {A : Type 0} (id_of : A → String) where
  pub lookup_by : String → List A → Option A
  lookup_by id [] = none
  lookup_by id (x ∷ xs) =
      let later = lookup_by id xs in if str_eq (id_of x) id then some x else later

  -- map[id] = value
  pub store_by : A → List A → List A
  store_by a [] = a ∷ []
  store_by a (x ∷ xs) =
      let rest = store_by a xs in if str_eq (id_of x) (id_of a) then a ∷ xs else x ∷ rest

  store_all : List A → List A → List A
  unfolding store_by
  store_all [] stored = stored
  store_all (a ∷ as') stored = store_all as' (store_by a stored)

  insert_by_id_of : A → List A → List A
  insert_by_id_of a [] = a ∷ []
  insert_by_id_of a (x ∷ xs) =
      let rest = insert_by_id_of a xs in
      if text_lt (id_of x) (id_of a) then x ∷ rest else a ∷ x ∷ xs

  -- sort.Slice by the id
  pub sort_by_id_of : List A → List A
  unfolding insert_by_id_of
  sort_by_id_of [] = []
  sort_by_id_of (x ∷ xs) = insert_by_id_of x (sort_by_id_of xs)

module _ {F : Type 0} where
  pub new_memory_repository : List (Candidate F) → List Incident → MemoryRepository F
  unfolding store_all
  new_memory_repository candidates incidents = record {
    candidates = store_all (λ (c : Candidate F). c.candidate_id) candidates [];
    incidents = store_all (λ (i : Incident). i.incident_id) incidents [];
    cases = [];
    replay_runs = [];
    algorithm_runs = [];
    dispositions = [];
  }

  pub list_candidates : MemoryRepository F → List (Candidate F)
  unfolding sort_by_id_of
  list_candidates r = sort_by_id_of (λ (c : Candidate F). c.candidate_id) r.candidates

  pub get_candidate : String → MemoryRepository F → Option (Candidate F)
  unfolding lookup_by
  get_candidate id r = lookup_by (λ (c : Candidate F). c.candidate_id) id r.candidates

  pub get_case : String → MemoryRepository F → Option Case
  unfolding lookup_by
  get_case id r = lookup_by (λ (c : Case). c.case_id) id r.cases

  pub get_incident : String → MemoryRepository F → Option Incident
  unfolding lookup_by
  get_incident id r = lookup_by (λ (i : Incident). i.incident_id) id r.incidents

  pub get_algorithm_run : String → MemoryRepository F → Option AlgorithmRun
  unfolding lookup_by
  get_algorithm_run id r = lookup_by (λ (a : AlgorithmRun). a.run_id) id r.algorithm_runs

  pub create_replay_run : ReplayRun → MemoryRepository F → MemoryRepository F × Option ReviewError
  unfolding store_by
  create_replay_run run r =
      if str_eq run.run_id "" || str_eq run.requested_by ""
      then (r, some run_fields_required)
      else (
        record r { replay_runs = store_by (λ (x : ReplayRun). x.run_id) run r.replay_runs },
        none,
      )

  pub append_disposition :
      Disposition → MemoryRepository F → MemoryRepository F × Option ReviewError
  append_disposition d r =
      if str_eq d.case_id "" || (str_eq d.reviewer_id "" || str_eq d.disposition "")
      then (r, some disposition_fields_required)
      else (record r { dispositions = r.dispositions ++ d ∷ [] }, none)

-- what is written: the status, and the value behind it
pub data Body (F : Type 0) : Type 0 where
  message : String → Body F
  page : Body F
  of_candidates : List (Candidate F) → Body F
  of_candidate : Candidate F → Body F
  of_case : Case → Body F
  of_incident : Incident → Body F
  of_algorithm_run : AlgorithmRun → Body F
  of_disposition : Disposition → Body F
  of_replay_run : ReplayRun → Body F

abbrev pub Answer : Type 0 → Type 0
Answer F = ℕ × Body F

-- time.Parse(RFC3339, s), strconv.ParseFloat(s, 64) and the comparison of two numbers
pub record ReviewLib (F : Type 0) : Type 0 where
  pub parse_time : String → Option ℤ
  pub parse_float : String → Option F
  pub lt : F → F → Bool

-- the query of the listing; the empty text where a value is missing
pub record ListQuery : Type 0 where
  pub server : String
  pub camera_mode : String
  pub squad_status : String
  pub feature_family : String
  pub review_priority : String
  pub confidence : String
  pub date_from : String
  pub date_to : String

abbrev misses : String → String → Bool
misses wanted value = not (str_eq wanted "") && not (str_eq value wanted)

module _ {F : Type 0} (lib : ReviewLib F) where
  pub within_date : ℤ → String → String → Bool
  within_date value from to =
      (str_eq from "" || elim (lib.parse_time from) [ none ↦ false | some t ↦ not (ltb_ℤ value t) ])
      && (str_eq to "" || elim (lib.parse_time to) [ none ↦ false | some t ↦ not (ltb_ℤ t value) ])

  -- none: the confidence is no number
  is_confident : ListQuery → Candidate F → Option Bool
  is_confident q c =
      if str_eq q.confidence "" then some true else elim (lib.parse_float q.confidence) [
        | none ↦ none
        | some minimum ↦ some (not (lib.lt c.control_quality minimum))
      ]

  misses_texts : ListQuery → Candidate F → Bool
  misses_texts q c =
      misses q.server c.server_id
      || (misses q.camera_mode c.camera_mode
          || (misses q.squad_status c.squad_status
              || (misses q.feature_family c.feature_family
                  || misses q.review_priority c.review_priority)))

  -- the loop of listCandidates; none where it answers that the confidence is no number
  pub filter_candidates : ListQuery → List (Candidate F) → Option (List (Candidate F))
  unfolding misses_texts is_confident within_date
  filter_candidates q [] = some []
  filter_candidates q (c ∷ cs) =
      let rest = filter_candidates q cs in
      if misses_texts q c then rest else elim (is_confident q c) [
        | none ↦ none
        | some confident ↦
            if not confident || not (within_date c.created_at q.date_from q.date_to)
            then rest
            else elim rest [ none ↦ none | some others ↦ some (c ∷ others) ]
      ]
