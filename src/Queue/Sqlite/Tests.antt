-- ===== src/Queue/Sqlite/Tests.antt =====
-- A small job table, and the theorems about the SQLite queue at it.
use shiori_server.Prelude.{
  ℕ, ◌+◌, ◌*◌, ◌≤◌, ◌<◌, ◌≡◌, refl, ◌≢◌, String, Bool, true, false, Option, none, some, List, [],
  ◌∷◌, arith, eq_iff, inl, inr, ◌⊎◌,
}
use shiori_server.Queue.Types.{
  queued, running, succeeded, failed, cancelled, Job, ok, is_running, is_live,
}
use shiori_server.Queue.Table.{Row, Table, Call, find_id}
use shiori_server.Queue.Sqlite.{
  dequeue, ack, nack, heartbeat, cancel, to_job, lease_row, eligible, better,
}
use shiori_server.Queue.Sqlite.Runs.{
  Op, enqueue_op, dequeue_op, cancel_op, nack_op, apply, run, empty_table,
}
use shiori_server.Queue.Sqlite.Invariant.{IsValid, run-IsValid, empty_table-IsValid}
use shiori_server.Queue.Sqlite.Exclusion.{dequeue_exclusive}
use shiori_server.Queue.Sqlite.Dispatch.{Leased, dequeue-Leased, dequeue_reclaims}
use shiori_server.Queue.Sqlite.Lifecycle.{Guards, settle-Guards, nack_lem}
use shiori_server.Queue.Sqlite.Diagram.{Follows, apply-Follows}

abbrev job_row : Row
job_row = record {
  id = 1;
  idempotency_key = "a";
  job_type = "extract_media";
  payload = "{}";
  status = queued;
  priority = 0;
  attempts = 0;
  max_attempts = 3;
  lease_token = none;
  leased_at = none;
  heartbeat_at = none;
  scheduled_at = 1000;
  created_at = 1000;
  updated_at = 1000;
  error = none;
}

-- Running since 900, with a priority above that of the queued job.
abbrev stuck_row : Row
stuck_row = record job_row {
  id = 2;
  idempotency_key = "b";
  status = running;
  priority = 7;
  attempts = 1;
  lease_token = some "lease";
  leased_at = some 900;
  heartbeat_at = some 900;
}

abbrev done_row : Row
done_row = record job_row { id = 3; idempotency_key = "c"; status = cancelled; attempts = 2 }

abbrev jobs : Table
jobs = record { rows = job_row ∷ stuck_row ∷ done_row ∷ []; next_id = 4 }

abbrev at : ℕ → Call
at now = record { now = now; lease = "t"; fault = none; fault' = none; prefer = λ _ _. false }

abbrev wanted : List String
wanted = "extract_media" ∷ []

abbrev new_job : Job
new_job = record {
  id = 0;
  idempotency_key = "d";
  job_type = "extract_media";
  payload = "{}";
  status = queued;
  priority = 0;
  attempts = 0;
  max_attempts = 0;
  error = "";
  scheduled_at = none;
  created_at = 0;
  updated_at = 0;
}

b≢a : ◌≢◌ {A = String} "b" "a"
b≢a = ground (arith, eq_iff "b" "a")

c≢a : ◌≢◌ {A = String} "c" "a"
c≢a = ground (arith, eq_iff "c" "a")

c≢b : ◌≢◌ {A = String} "c" "b"
c≢b = ground (arith, eq_iff "c" "b")

jobs-IsValid : IsValid jobs
jobs-IsValid = record {
  distinct = (
    (omega arith, (omega arith, tt)),
    (b≢a, (c≢a, tt)),
    ((omega arith, tt), (c≢b, tt), (tt, tt, tt)),
  );
  fresh = omega arith;
  leased = ((λ e. cc), ((λ _ e. cc), ((λ e. cc), tt)));
}

stale_job_first : (dequeue (at 2000) wanted jobs).0 ≡ ok (to_job (lease_row (at 2000) stuck_row))
unfolding dequeue eligible better
stale_job_first = refl

fresh_job_next :
    (dequeue (at 2000) wanted (dequeue (at 2000) wanted jobs).1).0
    ≡ ok (to_job (lease_row (at 2000) job_row))
unfolding dequeue eligible better
fresh_job_next = refl

dequeue-Leased_example : Leased (at 2000) wanted jobs (to_job (lease_row (at 2000) stuck_row))
dequeue-Leased_example =
    dequeue-Leased (at 2000) wanted jobs (to_job (lease_row (at 2000) stuck_row)) stale_job_first

dequeue_exclusive_example :
    (to_job (lease_row (at 2000) job_row)).id ≢ (to_job (lease_row (at 2000) stuck_row)).id
unfolding dequeue
dequeue_exclusive_example =
    dequeue_exclusive (at 2000) (at 2000) wanted wanted ((at 2000, []) ∷ []) jobs
      (to_job (lease_row (at 2000) stuck_row)) (to_job (lease_row (at 2000) job_row))
      (omega arith, tt) (omega arith) stale_job_first fresh_job_next

dequeue_reclaims_example : (j : Job) × ((dequeue (at 1300) ("extract_media" ∷ []) jobs).0 ≡ ok j)
dequeue_reclaims_example =
    dequeue_reclaims (at 1300) "extract_media" [] jobs stuck_row jobs-IsValid refl (inr (inl refl))
      (inl refl) refl (λ h e. ground arith)

abbrev a_life : List (Op)
a_life =
    enqueue_op (at 1000) new_job
    ∷ dequeue_op (at 1001) wanted
    ∷ nack_op (at 1002) 1 "timeout"
    ∷ cancel_op (at 1003) 1
    ∷ []

run-IsValid_example : IsValid (run a_life empty_table)
run-IsValid_example = run-IsValid a_life empty_table empty_table-IsValid

apply-Follows_example : Follows 2 stuck_row (apply (cancel_op (at 1000) 2) jobs)
apply-Follows_example =
    apply-Follows (cancel_op (at 1000) 2) 2 stuck_row jobs jobs-IsValid refl refl

settle-Guards_example :
    Guards is_running
      (λ q. record q { status = succeeded; lease_token = none; updated_at = 1000 })
      3
      jobs
      done_row
      (ack (at 1000) 3 jobs)
    × Guards is_running
        (λ q. record q { heartbeat_at = some 1000; updated_at = 1000 })
        3
        jobs
        done_row
        (heartbeat (at 1000) 3 jobs)
    × Guards is_live
        (λ q. record q { status = cancelled; lease_token = none; updated_at = 1000 })
        3
        jobs
        done_row
        (cancel (at 1000) 3 jobs)
settle-Guards_example = settle-Guards (at 1000) 3 jobs done_row refl jobs-IsValid.distinct refl

-- A Nack that comes after the cancellation queues the job again.
nack_lem_example :
    (q : Row) × (find_id 3 (nack (at 1000) 3 "late" jobs).1.rows ≡ some q)
    × (q.error ≡ some "late")
    × (q.lease_token ≡ none)
    × (((3 ≤ 2) × (q.status ≡ failed) × (q.scheduled_at ≡ 1000))
        ⊎ ((2 < 3)
            × (q.status ≡ queued)
            × (((done_row.attempts ≡ 0) × (q.scheduled_at ≡ 1000 + 60))
                ⊎ ((0 < 2) × (q.scheduled_at ≡ 1000 + 2 * 300)))))
nack_lem_example = nack_lem (at 1000) 3 "late" jobs done_row refl refl refl

abbrev after_nack : Option Row → Bool
after_nack none = false
after_nack (some r) = elim r.status [ queued ↦ true | _ ↦ false ]

nack_revives : after_nack (find_id 3 (nack (at 1000) 3 "late" jobs).1.rows) ≡ true
unfolding nack
nack_revives = refl
