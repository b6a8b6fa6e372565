-- ===== src/Api/Tests.antt =====
-- Requests on a queue with one job, and the theorems about the endpoints at them.
use shiori_server.Prelude.{ℕ, ◌≡◌, refl, String, Bool, true, false, none, some, List, [], ◌∷◌, ◌⊎◌}
use shiori_server.Queue.Types.{cancelled, is_live}
use shiori_server.Queue.Table.{Row, Table, Call, find_id}
use shiori_server.Queue.Sqlite.{enqueue}
use shiori_server.Queue.Sqlite.Runs.{enqueue_op, apply, run, empty_table}
use shiori_server.Queue.Sqlite.Invariant.{IsValid, run-IsValid, empty_table-IsValid}
use shiori_server.Prelude.{◌++◌}
use shiori_server.Prelude.Map.{find}
use shiori_server.Events.Hub.{Hub, Event, new_hub, publish, newer, ensured, subscribe_from}
use shiori_server.Api.Stream.{Message, message, job_events, owed, after_of, job_events-owed}
use shiori_server.Api.Jobs.{
  no_content, accepted, problem, cancel_job, Payload, extract_job, enqueue_extract,
}
use shiori_server.Api.Answers.{cancel_job_lem}

abbrev at : ℕ → Call
at n = record { now = n; lease = "lease"; fault = none; fault' = none; prefer = λ a b. false }

abbrev one_job : Table
one_job = run (enqueue_op (at 100) (extract_job "k" "{}") ∷ []) empty_table

one_job-IsValid : IsValid one_job
one_job-IsValid =
    run-IsValid (enqueue_op (at 100) (extract_job "k" "{}") ∷ []) empty_table empty_table-IsValid

abbrev hub : Hub String
hub = new_hub

cancel_job_lem_example :
    let p = cancel_job (at 200) (at 201) "job:1" "cancelled" 1 (one_job, hub) in
    ((find_id 1 one_job.rows ≡ none) × (p ≡ (problem 404 "Job Not Found", (one_job, hub))))
    ⊎ ((r : Row) × (find_id 1 one_job.rows ≡ some r)
        × (((is_live r.status ≡ false) × (p ≡ (problem 409 "Job Already Finished", (one_job, hub))))
            ⊎ ((is_live r.status ≡ true)
                × (p.0 ≡ no_content)
                × ((q : Row) × (find_id 1 p.1.0.rows ≡ some q) × (q.status ≡ cancelled))
                × (p.1.1 ≡ publish 201 "job:1" "cancelled" hub))))
cancel_job_lem_example =
    cancel_job_lem (at 200) (at 201) "job:1" "cancelled" 1 one_job hub one_job-IsValid refl refl

abbrev chapters_of : Payload
chapters_of = record { url = 104 ∷ []; target = "manga"; requires_login = false; login_url = [] }

abbrev any_url : List ℕ → Bool
any_url s = true

abbrev as_json : Payload → String
as_json p = p.target

accepted_second :
    (enqueue_extract any_url as_json (at 300) "k2" (some chapters_of) one_job).0 ≡ accepted 2
unfolding enqueue_extract enqueue run apply
accepted_second = refl

abbrev event_of : ℕ → String → Event Message
event_of i name = record { id = i; content = message name "" }

-- One event that a client missed and one that it saw.
abbrev busy_hub : Hub Message
busy_hub =
    publish 20 "job:1" (message "progress" "") (publish 10 "job:1" (message "progress" "") new_hub)

abbrev live_events : List (Event Message)
live_events = event_of 3 "done" ∷ event_of 4 "progress" ∷ []

job_events_ends :
    (job_events 30 40 "job:1" 1 0 live_events (λ h. h) busy_hub).0
    ≡ event_of 2 "progress" ∷ event_of 3 "done" ∷ []
unfolding job_events subscribe_from newer publish new_hub
job_events_ends = refl

job_events-owed_example :
    (job_events 30 40 "job:1" 1 0 live_events (λ h. h) busy_hub).0
    ≡ owed (newer (after_of 1 0) (ensured 30 (find "job:1" busy_hub.topics)).history ++ live_events)
job_events-owed_example = job_events-owed 30 40 "job:1" 1 0 live_events (λ h. h) busy_hub

abbrev token : List ℕ
token = b'a' ∷ b'1' ∷ []
