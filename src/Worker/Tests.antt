-- ===== src/Worker/Tests.antt =====
-- A worker on a small queue, and the theorems about workers at it.
use shiori_server.Prelude.{ℕ, ◌≡◌, refl, String, false, none, some, List, [], ◌∷◌}
use shiori_server.Queue.Types.{Job, queued, running, succeeded, ok}
use shiori_server.Queue.Table.{Row, Table, Call, find_id}
use shiori_server.Queue.Sqlite.{enqueue, dequeue, eligible, better, heartbeat, exec, ack, status}
use shiori_server.Queue.Sqlite.Runs.{enqueue_op, apply, run, empty_table}
use shiori_server.Queue.Sqlite.Invariant.{IsValid, run-IsValid, empty_table-IsValid}
use shiori_server.Worker.Pool.{Handler, Pool, new_pool, Circumstances, process_job}
use shiori_server.Worker.Settling.{IsCalm, registered}
use shiori_server.Worker.Sqlite.{sqlite_provider, sqlite_promises, Settled, leased_job_settles}

abbrev at : ℕ → Call
at n = record { now = n; lease = "lease"; fault = none; fault' = none; prefer = λ a b. false }

abbrev an_import : Job
an_import = record {
  id = 0;
  idempotency_key = "k";
  job_type = "extract_media";
  payload = "{}";
  status = queued;
  priority = 0;
  attempts = 0;
  max_attempts = 0;
  error = "";
  scheduled_at = none;
  created_at = 0;
  updated_at = 0;
}

abbrev one_job : Table
one_job = run (enqueue_op (at 100) an_import ∷ []) empty_table

one_job-IsValid : IsValid one_job
one_job-IsValid = run-IsValid (enqueue_op (at 100) an_import ∷ []) empty_table empty_table-IsValid

abbrev leased_import : Job
leased_import = record {
  id = 1;
  idempotency_key = "k";
  job_type = "extract_media";
  payload = "{}";
  status = running;
  priority = 0;
  attempts = 1;
  max_attempts = 3;
  error = "";
  scheduled_at = some 100;
  created_at = 100;
  updated_at = 200;
}

abbrev wanted : List String
wanted = "extract_media" ∷ []

leased : (dequeue (at 200) wanted one_job).0 ≡ ok leased_import
unfolding dequeue run apply enqueue eligible better
leased = refl

abbrev fine_handler : Handler
fine_handler j stopped = none

abbrev failing_handler : Handler
failing_handler j stopped = some "no chapters"

abbrev one_tick : Circumstances Call Table
one_tick = record {
  ticks = (at 201, λ t. t) ∷ [];
  tail = λ t. t;
  shutdown = false;
  asked = at 202;
  between = λ t. t;
  told = at 203;
}

one_tick-IsCalm : IsCalm sqlite_provider sqlite_promises 1 one_tick
one_tick-IsCalm = record {
  ticks = (((refl, refl), λ s r. r), tt);
  tail = λ s r. r;
  between = λ s r. r;
  asked = (refl, refl);
  told = (refl, refl);
}

abbrev pool : Pool
pool =
    registered (("extract_media", fine_handler) ∷ ("chapter_import", failing_handler) ∷ [])
      (new_pool 0)

job_succeeds :
    (r : Row) × (find_id 1
        (process_job sqlite_provider one_tick pool leased_import
          (dequeue (at 200) wanted one_job).1).rows
      ≡ some r)
    × (r.status ≡ succeeded)
unfolding process_job dequeue run registered new_pool status apply enqueue eligible better heartbeat
    exec ack
job_succeeds = (_, refl, refl)

leased_job_settles_example :
    Settled 1
      (process_job sqlite_provider one_tick pool leased_import (dequeue (at 200) wanted one_job).1)
leased_job_settles_example =
    leased_job_settles (at 200) wanted one_job leased_import one_tick pool one_job-IsValid leased
      one_tick-IsCalm

leased_by_pool : (dequeue (at 200) pool.types one_job).0 ≡ ok leased_import
unfolding dequeue run registered new_pool apply enqueue eligible better
leased_by_pool = refl
