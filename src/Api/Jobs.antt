-- ===== src/Api/Jobs.antt =====
-- internal/jobs/http.go: JobStatus, CancelJob and EnqueueExtract over the SQLite queue and the event
-- hub, and the validation of internal/jobs/extract.go. A URL is the list of its bytes. The topic of
-- a job, the JSON of a payload and of the event, and what ParseRequestURI makes of a URL are given.
use shiori_server.Prelude.{
  ℕ, String, Bool, true, false, not, Option, none, some, List, [], ◌∷◌, str_eq, if◌then◌else◌,
}
use shiori_server.Queue.Types.{
  JobStatus, queued, succeeded, succeeded_with_warnings, failed, cancelled, QueueError, conflict,
  job_not_found, Job, ok, err,
}
use shiori_server.Queue.Table.{Table, Call}
use shiori_server.Queue.Sqlite.{enqueue, status, cancel}
use shiori_server.Events.Hub.{Hub, publish}
use shiori_server.Chunker.Text.{trim_space}

-- The answers of the handlers; a problem has the status and the title of its document.
pub data Response : Type 0 where
  found : Job → Response
  no_content : Response
  accepted : ℕ → Response
  problem : ℕ → String → Response

abbrev pub is_finished : JobStatus → Bool
is_finished succeeded = true
is_finished succeeded_with_warnings = true
is_finished failed = true
is_finished cancelled = true
is_finished _ = false

-- Every error of Status comes with no job, and the code asks for that first, so that each error
-- takes the branch of ErrJobNotFound.
unfoldable pub job_status : Call → ℕ → Table → Response
job_status c i t = elim (status c i t) [ ok job ↦ found job | err e ↦ problem 404 "Job Not Found" ]

abbrev pub status_of : QueueError → ℕ
status_of job_not_found = 404
status_of _ = 500

module _ {D : Type 0} where
  -- `c` is what Status takes from outside and `c'` what Cancel does.
  unfoldable pub cancel_job :
      Call → Call → String → D → ℕ → Table × Hub D → Response × (Table × Hub D)
  cancel_job c c' topic event i (t, h) = elim (status c i t) [
    | err e ↦ (problem 404 "Job Not Found", (t, h))
    | ok job ↦
        if is_finished job.status
        then (problem 409 "Job Already Finished", (t, h))
        else elim (cancel c' i t).0 [
          | some e ↦ (problem (status_of e) "Cancellation Error", ((cancel c' i t).1, h))
          | none ↦ (no_content, ((cancel c' i t).1, publish c'.now topic event h))
        ]
  ]

pub record Payload : Type 0 where
  pub url : List ℕ
  pub target : String
  pub requires_login : Bool
  pub login_url : List ℕ

abbrev pub is_blank : List ℕ → Bool
is_blank [] = true
is_blank (b ∷ bs) = false

-- Validate; `valid` is validateHTTPURL with no error.
unfoldable pub validate : (List ℕ → Bool) → Payload → Bool
unfolding trim_space
validate valid p =
    if not (valid p.url)
    then false
    else if str_eq p.target ""
    then false
    else if p.requires_login
    then valid p.login_url
    else is_blank (trim_space p.login_url)

abbrev pub extract_job : String → String → Job
extract_job key json = record {
  id = 0;
  idempotency_key = key;
  job_type = "extract_media";
  payload = json;
  status = queued;
  priority = 0;
  attempts = 0;
  max_attempts = 0;
  error = "";
  scheduled_at = none;
  created_at = 0;
  updated_at = 0;
}

-- `key` is the new ULID; none as a body is one that does not decode.
unfoldable pub enqueue_extract :
    (List ℕ → Bool) → (Payload → String) → Call → String → Option Payload → Table → Response × Table
unfolding validate
enqueue_extract valid json c key none t = (problem 400 "Invalid Request", t)
enqueue_extract valid json c key (some p) t =
    let ((job, failure), t') = enqueue c (extract_job key (json p)) t in
    if not (validate valid p) then (problem 400 "Invalid Request", t) else elim failure [
      | none ↦ (accepted job.id, t')
      | some e ↦ elim e [
        | conflict ↦ (problem 409 "Conflict", t')
        | _ ↦ (problem 500 "Queue Error", t')
      ]
    ]
