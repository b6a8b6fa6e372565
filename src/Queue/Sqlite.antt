-- ===== src/Queue/Sqlite.antt =====
-- internal/platform/queue/sqlitequeue/queue.go over the table `job_queue`. Each method is a
-- function of the call's circumstances and the table; each SQL statement is written out as what
-- it does to the rows.
pub mod Runs
mod Outcome
pub mod Invariant
pub mod Order
pub mod Dispatch
pub mod Exclusion
pub mod Lifecycle
pub mod Diagram
mod Tests
use shiori_server.Prelude.{
  ℕ, suc, ◌+◌, ◌-◌, ◌*◌, String, Bool, false, ◌&&◌, ◌||◌, Option, none, some, List, [], ◌∷◌, ◌++◌,
  ltb, leb, ◌==◌, if◌then◌else◌,
}
use shiori_server.Queue.Types.{
  queued, running, succeeded, failed, cancelled, QueueError, job_not_found, no_jobs, conflict,
  no_types, driver, Job, Result, ok, err, is_queued, is_running, is_live,
}
use shiori_server.Queue.Table.{Row, Table, Call, update_where, affected, find_id, has_key, has_type}

-- The job as Enqueue sends it: a missing schedule is now, a missing limit is 3.
abbrev pub prepare : ℕ → Job → Job
prepare now j = record j {
  scheduled_at = some (elim j.scheduled_at [ none ↦ now | some t ↦ t ]);
  max_attempts = if j.max_attempts == 0 then 3 else j.max_attempts;
  status = queued;
}

abbrev pub schedule_of : ℕ → Job → ℕ
schedule_of now j = elim j.scheduled_at [ none ↦ now | some t ↦ t ]

-- INSERT INTO job_queue … RETURNING id
unfoldable pub insert_row : ℕ → ℕ → Job → Row
insert_row i now j = record {
  id = i;
  idempotency_key = j.idempotency_key;
  job_type = j.job_type;
  payload = j.payload;
  status = j.status;
  priority = j.priority;
  attempts = 0;
  max_attempts = j.max_attempts;
  lease_token = none;
  leased_at = none;
  heartbeat_at = none;
  scheduled_at = schedule_of now j;
  created_at = now;
  updated_at = now;
  error = none;
}

-- The job that the caller holds afterwards, the error and the table. `job` is mutated in place,
-- also where the insertion fails.
unfoldable pub enqueue : Call → Job → Table → (Job × Option QueueError) × Table
unfolding insert_row
enqueue c job t =
    let j = prepare c.now job in
    elim c.fault [
      | some e ↦ ((j, some (driver e)), t)
      | none ↦ if has_key j.idempotency_key t.rows then ((j, some conflict), t) else (
        (record j { id = t.next_id; created_at = c.now; updated_at = c.now }, none),
        record { rows = t.rows ++ insert_row t.next_id c.now j ∷ []; next_id = suc t.next_id },
      )
    ]

-- time.Now().Add(-5 * time.Minute)
abbrev pub stale_after : ℕ
stale_after = 300

-- A NULL heartbeat is before no time.
abbrev pub before : Option ℕ → ℕ → Bool
before none t = false
before (some h) t = ltb h t

-- The WHERE clause of the subquery.
unfoldable pub eligible : ℕ → List String → Row → Bool
eligible now types r =
    has_type types r.job_type
    && ((is_queued r.status && leb r.scheduled_at now)
        || (is_running r.status && before r.heartbeat_at (now - stale_after)))

-- ORDER BY priority DESC, scheduled_at ASC: `a` comes before `b`.
unfoldable pub comes_first : (Row → Row → Bool) → Row → Row → Bool
comes_first prefer a b =
    ltb b.priority a.priority
    || (a.priority == b.priority
        && (ltb a.scheduled_at b.scheduled_at || (a.scheduled_at == b.scheduled_at && prefer a b)))

unfoldable pub better : (Row → Row → Bool) → Row → Option Row → Row
unfolding comes_first
better prefer r none = r
better prefer r (some b) = if comes_first prefer r b then r else b

-- SELECT id FROM job_queue WHERE … ORDER BY … LIMIT 1
unfoldable pub pick : Call → List String → List Row → Option Row
pick c types [] = none
pick c types (r ∷ rs) =
    let rest = pick c types rs in
    if eligible c.now types r then some (better c.prefer r rest) else rest

-- SET status = 'running', lease_token = ?, …, attempts = attempts + 1
unfoldable pub lease_row : Call → Row → Row
lease_row c r = record r {
  status = running;
  lease_token = some c.lease;
  leased_at = some c.now;
  heartbeat_at = some c.now;
  updated_at = c.now;
  attempts = suc r.attempts;
}

-- Scanning a row into a queue.Job.
unfoldable pub to_job : Row → Job
to_job r = record {
  id = r.id;
  idempotency_key = r.idempotency_key;
  job_type = r.job_type;
  payload = r.payload;
  status = r.status;
  priority = r.priority;
  attempts = r.attempts;
  max_attempts = r.max_attempts;
  error = elim r.error [ none ↦ "" | some e ↦ e ];
  scheduled_at = some r.scheduled_at;
  created_at = r.created_at;
  updated_at = r.updated_at;
}

-- A lease is taken by the UPDATE on the row whose id the subquery gives; RETURNING reads it back.
unfoldable pub dequeue : Call → List String → Table → Result Job × Table
unfolding pick lease_row to_job
dequeue c [] t = (err no_types, t)
dequeue c (x ∷ xs) t = elim c.fault [
  | some e ↦ (err (driver e), t)
  | none ↦ elim (pick c (x ∷ xs) t.rows) [
    | none ↦ (err no_jobs, t)
    | some r ↦ (
      ok (to_job (lease_row c r)),
      record t { rows = update_where (λ q. q.id == r.id) (lease_row c) t.rows },
    )
  ]
]

-- What Ack, Heartbeat and Cancel share: one guarded UPDATE, and ErrJobNotFound where it touches
-- no row.
unfoldable pub exec : Call → (Row → Bool) → (Row → Row) → Table → Option QueueError × Table
exec c test f t = elim c.fault [
  | some e ↦ (some (driver e), t)
  | none ↦
      if affected test t.rows == 0
      then (some job_not_found, t)
      else (none, record t { rows = update_where test f t.rows })
]

unfoldable pub ack : Call → ℕ → Table → Option QueueError × Table
ack c i t =
    exec c (λ r. r.id == i && is_running r.status)
      (λ r. record r { status = succeeded; lease_token = none; updated_at = c.now }) t

unfoldable pub heartbeat : Call → ℕ → Table → Option QueueError × Table
heartbeat c i t =
    exec c (λ r. r.id == i && is_running r.status)
      (λ r. record r { heartbeat_at = some c.now; updated_at = c.now }) t

unfoldable pub cancel : Call → ℕ → Table → Option QueueError × Table
cancel c i t =
    exec c (λ r. r.id == i && is_live r.status)
      (λ r. record r { status = cancelled; lease_token = none; updated_at = c.now }) t

-- time.Duration(attempts*5) * time.Minute, at least one minute
unfoldable pub backoff : ℕ → ℕ
backoff attempts = if attempts * 5 == 0 then 60 else attempts * 5 * 60

-- The columns that Nack writes. Its UPDATE has no test on the status.
unfoldable pub nack_row : Call → String → ℕ → ℕ → Row → Row
unfolding backoff
nack_row c reason attempts max r =
    let spent = leb max attempts in
    record r {
      status = if spent then failed else queued;
      error = some reason;
      lease_token = none;
      scheduled_at = if spent then c.now else c.now + backoff attempts;
      updated_at = c.now;
    }

unfoldable pub nack : Call → ℕ → String → Table → Option QueueError × Table
unfolding nack_row
nack c i reason t = elim c.fault [
  | some e ↦ (some (driver e), t)
  | none ↦ elim (find_id i t.rows) [
    | none ↦ (some (driver "sql: no rows in result set"), t)
    | some r ↦ elim c.fault' [
      | some e ↦ (some (driver e), t)
      | none ↦ (
        none,
        record t {
          rows = update_where (λ q. q.id == i) (nack_row c reason r.attempts r.max_attempts) t.rows;
        },
      )
    ]
  ]
]

unfoldable pub status : Call → ℕ → Table → Result Job
unfolding to_job
status c i t = elim c.fault [
  | some e ↦ err (driver e)
  | none ↦ elim (find_id i t.rows) [ none ↦ err job_not_found | some r ↦ ok (to_job r) ]
]
