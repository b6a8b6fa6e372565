-- ===== src/Worker/Sqlite.antt =====
-- The SQLite queue as the queue of the workers, and a job from its Dequeue to its end.
use shiori_server.Prelude.{
  ℕ, ◌==◌, ◌≡◌, ◌≢◌, refl, String, none, some, false, List, arith, inl, inr, Option-cases,
}
use shiori_server.Prelude.Map.{find}
use shiori_server.Queue.Types.{Job, running, ok}
use shiori_server.Queue.Table.{Row, Table, Call, find_id}
use shiori_server.Queue.Table.Laws.{All-In, find_id-In, find_id-update_where}
use shiori_server.Queue.Sqlite.{dequeue, ack, nack, heartbeat, status, lease_row, to_job}
use shiori_server.Queue.Sqlite.Runs.{apply, heartbeat_op, dequeue_op}
use shiori_server.Queue.Sqlite.Invariant.{IsValid, apply-IsValid}
use shiori_server.Queue.Sqlite.Lifecycle.{settle-Guards, nack_lem}
use shiori_server.Queue.Sqlite.Dispatch.{dequeue-Leased}
use shiori_server.Worker.Pool.{
  Provider, Handler, Pool, new_pool, Circumstances, sees_cancelled, process_job,
}
use shiori_server.Worker.Settling.{
  Promises, IsCalm, process_job_settles, registered, registered-Covered,
}

abbrev pub sqlite_provider : Provider Call Table
sqlite_provider = record {
  dequeue = dequeue;
  ack = ack;
  nack = nack;
  heartbeat = heartbeat;
  status = status;
}

abbrev pub Healthy : Call → Type 0
Healthy c = (c.fault ≡ none) × (c.fault' ≡ none)

abbrev pub Running : ℕ → Table → Type 0
Running i t = IsValid t × ((r : Row) × (find_id i t.rows ≡ some r) × (r.status ≡ running))

abbrev pub Settled : ℕ → Table → Type 0
Settled i t = (r : Row) × (find_id i t.rows ≡ some r) × (r.status ≢ running)

pub Running-seen :
    (c : Call) (i : ℕ) (t : Table)
    → Healthy c
    → Running i t
    → sees_cancelled sqlite_provider c i t ≡ false
unfolding status to_job
Running-seen c i t h (v, (r, found, on)) = ground (arith, h.0, found, on)

pub Running-kept :
    (c : Call) (i : ℕ) (t : Table) → Healthy c → Running i t → Running i (heartbeat c i t).1
unfolding apply
Running-kept c i t h (v, (r, found, on)) =
    let valid : IsValid (heartbeat c i t).1 = apply-IsValid (heartbeat_op c i) t v in
    elim (settle-Guards c i t r h.0 v.distinct found).1 [
      | inl (admitted, fine, q) ↦ (valid, (_, q, on))
      | inr (refused, same) ↦ absurd (ground (arith, on))
    ]

pub Running-acked :
    (c : Call) (i : ℕ) (t : Table) → Healthy c → Running i t → Settled i (ack c i t).1
Running-acked c i t h (v, (r, found, on)) = elim (settle-Guards c i t r h.0 v.distinct found).0 [
  | inl (admitted, fine, q) ↦ (_, q, (λ e. ground (arith, e)))
  | inr (refused, same) ↦ absurd (ground (arith, on))
]

pub Running-nacked :
    (c : Call) (i : ℕ) (reason : String) (t : Table)
    → Healthy c
    → Running i t
    → Settled i (nack c i reason t).1
Running-nacked c i reason t h (v, (r, found, on)) =
    let (q, found', error, lease, what) = nack_lem c i reason t r h.0 h.1 found in
    (q, found', (λ e. ground (arith, what, e)))

abbrev pub sqlite_promises : Promises sqlite_provider
sqlite_promises = record {
  Healthy = Healthy;
  Running = Running;
  Settled = Settled;
  seen = Running-seen;
  kept = Running-kept;
  acked = Running-acked;
  nacked = Running-nacked;
}

leased-Running :
    (c : Call) (types : List String) (t : Table) (j : Job)
    → IsValid t
    → (dequeue c types t).0 ≡ ok j
    → Running j.id (dequeue c types t).1
unfolding apply lease_row to_job
leased-Running c types t j v h =
    let l = dequeue-Leased c types t j h in
    let found = find_id-In t.rows l.row v.distinct l.present in
    let kept =
      find_id-update_where (λ q. q.id == l.row.id) (lease_row c) (λ r. (refl, refl)) l.row.id
        t.rows in
    (
      apply-IsValid (dequeue_op c types) t v,
      (lease_row c l.row, ground (arith, l.written, l.handed_out, found, kept), refl),
    )

-- A job that a worker takes does not stay with it: in a valid table, where Dequeue gives a job, the
-- calls of its run go through and nobody else touches it, the job's row is there after processJob
-- and is not running.
pub leased_job_settles :
    (c : Call) (types : List String) (t : Table) (j : Job) (run : Circumstances Call Table)
    (p : Pool)
    → IsValid t
    → (dequeue c types t).0 ≡ ok j
    → IsCalm sqlite_provider sqlite_promises j.id run
    → Settled j.id (process_job sqlite_provider run p j (dequeue c types t).1)
leased_job_settles c types t j run p v h calm =
    process_job_settles sqlite_provider sqlite_promises run p j (dequeue c types t).1 calm
      (leased-Running c types t j v h)

-- A worker never gets a job that it cannot run: whatever handlers are registered on a new pool, a
-- job that Dequeue gives for the pool's types has a handler.
pub dequeued_has_handler :
    (n : ℕ) (hs : List (String × Handler)) (c : Call) (t : Table) (j : Job)
    → (dequeue c (registered hs (new_pool n)).types t).0 ≡ ok j
    → (h : Handler) × (find j.job_type (registered hs (new_pool n)).handlers ≡ some h)
unfolding to_job lease_row
dequeued_has_handler n hs c t j got =
    let p = registered hs (new_pool n) in
    let l = dequeue-Leased c p.types t j got in
    let covered = registered-Covered hs (new_pool n) (unfold new_pool in tt) in
    let known = All-In (λ ty. find ty p.handlers ≢ none) p.types l.row.job_type covered l.due.0 in
    elim (Option-cases (find j.job_type p.handlers)) [
      | inl missing ↦ absurd (ground (arith, l.handed_out, known, missing))
      | inr found ↦ found
    ]
