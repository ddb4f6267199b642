-- ===== src/Review/Api.antt =====
-- internal/review/api.go: the routes of the API. A repository is the methods that the handlers call; none
-- is an error of it.
use Prim.Native.String.{slice}
use dayz_behaviour.Prelude.{
  Bool, true, false, ◌||◌, not, Option, none, some, List, String, if◌then◌else◌,
}
use dayz_behaviour.Prelude.Int.{ℤ}
use dayz_behaviour.Prelude.Text.{str_eq, is_blank, starts_with, len, ◌<>◌}
use dayz_behaviour.Review.{
  Candidate, Incident, Disposition, Case, ReplayRun, AlgorithmRun, MemoryRepository, ReviewError,
  run_fields_required, disposition_fields_required, Body, Answer, message, page, of_candidates,
  of_candidate, of_case, of_incident, of_algorithm_run, of_disposition, of_replay_run, ReviewLib,
  ListQuery, list_candidates, get_candidate, get_case, get_incident, get_algorithm_run,
  create_replay_run, append_disposition, filter_candidates,
}

-- the repository with a state of its own
pub record Repository (F S : Type 0) : Type 0 where
  pub candidates_of : S → Option (List (Candidate F))
  pub candidate_of : String → S → Option (Option (Candidate F))
  pub case_of : String → S → Option (Option Case)
  pub incident_of : String → S → Option (Option Incident)
  pub algorithm_run_of : String → S → Option (Option AlgorithmRun)
  pub add_disposition : Disposition → S → S × Option ReviewError
  pub create_run : ReplayRun → S → S × Option ReviewError

-- the text of the error that the disposition handler answers with
error_text : ReviewError → String
error_text run_fields_required = "run_id and requested_by are required"
error_text disposition_fields_required = "case_id, reviewer_id and disposition are required"

-- a request behind its route: bodies are none where the strict decoder, or the limit, refuses them
pub data ReviewRequest : Type 0 where
  get_root get_health get_all_candidates : ReviewRequest
  get_review_candidates : ListQuery → ReviewRequest
  get_one_candidate get_one_case get_one_incident get_one_algorithm_run : String → ReviewRequest
  post_disposition : String → Option Disposition → ℤ → ReviewRequest
  post_replay_run : Option String → String → ℤ → ReviewRequest

is_open : ReviewRequest → Bool
is_open get_root = true
is_open get_health = true
is_open _ = false

module _ {F S : Type 0} (lib : ReviewLib F) (repository : Repository F S) where
  unavailable : Answer F
  unavailable = (500, message "repository unavailable")

  found : {A : Type 0} → String → (A → Body F) → Option (Option A) → Answer F
  unfolding unavailable
  found missing body none = unavailable
  found missing body (some none) = (404, message missing)
  found missing body (some (some a)) = (200, body a)

  all_candidates : Option (List (Candidate F)) → Answer F
  unfolding unavailable
  all_candidates none = unavailable
  all_candidates (some values) = (200, of_candidates values)

  filtered_candidates : ListQuery → Option (List (Candidate F)) → Answer F
  unfolding unavailable
  filtered_candidates q none = unavailable
  filtered_candidates q (some values) = elim (filter_candidates lib q values) [
    | none ↦ (400, message "confidence must be numeric")
    | some kept ↦ (200, of_candidates kept)
  ]

  after_disposition : Disposition → S × Option ReviewError → S × Answer F
  unfolding error_text
  after_disposition d (s, some e) = (s, (422, message (error_text e)))
  after_disposition d (s, none) = (s, (201, of_disposition d))

  -- the case comes from the path, and the time from the clock
  pub dispose : String → Option Disposition → ℤ → S → S × Answer F
  unfolding after_disposition
  dispose id none now s = (s, (400, message "invalid disposition"))
  dispose id (some d) now s =
      let value = record d { case_id = id; created_at = now } in
      after_disposition value (repository.add_disposition value s)

  after_run : ReplayRun → S × Option ReviewError → S × Answer F
  after_run run (s, some e) = (s, (500, message "could not queue replay"))
  after_run run (s, none) = (s, (202, of_replay_run run))

  -- `stamp` is the time in the digits of the id
  pub queue_run : Option String → String → ℤ → S → S × Answer F
  unfolding after_run
  queue_run none stamp now s = (s, (400, message "requested_by is required"))
  queue_run (some requested_by) stamp now s =
      let run : ReplayRun = record {
        run_id = "replay_" <> stamp;
        status = "QUEUED";
        requested_by = requested_by;
        created_at = now;
      } in
      if is_blank requested_by
      then (s, (400, message "requested_by is required"))
      else after_run run (repository.create_run run s)

  pub handle : ReviewRequest → S → S × Answer F
  unfolding found all_candidates filtered_candidates dispose queue_run
  handle get_root s = (s, (200, page))
  handle get_health s = (s, (200, message "ok"))
  handle get_all_candidates s = (s, all_candidates (repository.candidates_of s))
  handle (get_review_candidates q) s = (s, filtered_candidates q (repository.candidates_of s))
  handle (get_one_candidate id) s =
      (s, found "candidate not found" of_candidate (repository.candidate_of id s))
  handle (get_one_case id) s = (s, found "case not found" of_case (repository.case_of id s))
  handle (get_one_incident id) s =
      (s, found "incident not found" of_incident (repository.incident_of id s))
  handle (get_one_algorithm_run id) s =
      (s, found "algorithm run not found" of_algorithm_run (repository.algorithm_run_of id s))
  handle (post_disposition id body now) s = dispose id body now s
  handle (post_replay_run body stamp now) s = queue_run body stamp now s

  -- the bearer token of the Authorization header, where a token is configured
  pub authorise : String → String → ReviewRequest → S → S × Answer F
  unfolding handle is_open
  authorise token header request s =
      if is_open request || str_eq token ""
      then handle request s
      else if not (starts_with header "Bearer ")
          || not (str_eq (slice header (len "Bearer ") (len header)) token)
      then (s, (401, message "unauthorised"))
      else handle request s

pub memory_repository : {F : Type 0} → Repository F (MemoryRepository F)
memory_repository = record {
  candidates_of = λ r. some (list_candidates r);
  candidate_of = λ id r. some (get_candidate id r);
  case_of = λ id r. some (get_case id r);
  incident_of = λ id r. some (get_incident id r);
  algorithm_run_of = λ id r. some (get_algorithm_run id r);
  add_disposition = append_disposition;
  create_run = create_replay_run;
}
