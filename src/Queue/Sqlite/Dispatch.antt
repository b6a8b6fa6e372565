-- ===== src/Queue/Sqlite/Dispatch.antt =====
-- Which job Dequeue hands out: the subquery of its UPDATE, and the leases that it takes.
use shiori_server.Prelude.{
  ℕ, suc, ◌+◌, ◌<◌, ◌≡◌, refl, String, true, none, some, List, [], ◌∷◌, arith, All, In, inl, inr,
  ◌⊎◌, ◌==◌, Option-cases,
}
use shiori_server.Queue.Types.{Job, Result, QueueError, err, ok, running}
use shiori_server.Queue.Table.{Row, Table, Call, update_where}
use shiori_server.Queue.Table.Laws.{All-In}
use shiori_server.Queue.Sqlite.{dequeue, pick, eligible, lease_row, to_job}
use shiori_server.Queue.Sqlite.Invariant.{IsValid, HasLease}
use shiori_server.Queue.Sqlite.Order.{
  NotBefore, IsDue, pick-IsBest, pick-some, eligible-IsDue, IsDue-eligible,
}

-- Inversion of a Dequeue that returns a job.
pub dequeue_ok :
    (c : Call) (types : List String) (t : Table) (j : Job)
    → (dequeue c types t).0 ≡ ok j
    → (r : Row) × (pick c types t.rows ≡ some r)
      × (j ≡ to_job (lease_row c r))
      × ((dequeue c types t).1
          ≡ record t { rows = update_where (λ q. q.id == r.id) (lease_row c) t.rows })
unfolding dequeue
dequeue_ok c [] t j h = cc
dequeue_ok c (x ∷ xs) t j h = elim (Option-cases c.fault) [
  | inr (e, faulty) ↦ absurd (ground arith)
  | inl fine ↦ elim (Option-cases (pick c (x ∷ xs) t.rows)) [
    | inl empty ↦ absurd (ground arith)
    | inr (r, picked) ↦ (r, picked, ground arith, ground arith)
  ]
]

Result-cases :
    {A : Type 0} (x : Result A) → ((a : A) × (x ≡ ok a)) ⊎ ((e : QueueError) × (x ≡ err e))
Result-cases (ok a) = inl (a, refl)
Result-cases (err e) = inr (e, refl)

-- A Dequeue that returns an error changes nothing.
pub dequeue_err :
    (c : Call) (types : List String) (t : Table) (e : QueueError)
    → (dequeue c types t).0 ≡ err e
    → (dequeue c types t).1 ≡ t
unfolding dequeue
dequeue_err c [] t e h = refl
dequeue_err c (x ∷ xs) t e h = ground arith

-- What a Dequeue that returns a job has done: it leased the best of the jobs that are due.
pub record Leased (c : Call) (types : List String) (t : Table) (j : Job) : Type 0 where
  pub row : Row
  pub present : In row t.rows
  pub due : IsDue c.now types row
  pub first : All (λ q. IsDue c.now types q → NotBefore row q) t.rows
  pub handed_out : j ≡ to_job (lease_row c row)
  pub taken :
      (j.id ≡ row.id)
      × (j.status ≡ running)
      × (j.attempts ≡ suc row.attempts)
      × ((lease_row c row).heartbeat_at ≡ some c.now)
      × ((lease_row c row).lease_token ≡ some c.lease)
  pub written :
      (dequeue c types t).1
      ≡ record t { rows = update_where (λ q. q.id == row.id) (lease_row c) t.rows }

IsDue-first :
    (c : Call) (types : List String) (a : Row) (rows : List Row)
    → All (λ q. eligible c.now types q ≡ true → NotBefore a q) rows
    → All (λ q. IsDue c.now types q → NotBefore a q) rows
IsDue-first c types a [] h = tt
IsDue-first c types a (q ∷ rows) h =
    ((λ d. h.0 (IsDue-eligible c.now types q d)), IsDue-first c types a rows h.1)

-- A Dequeue that returns a job returns, of the rows of a wanted type that are queued and due, or
-- are running with a heartbeat more than five minutes old, one with the highest priority and, among
-- those, the earliest schedule; it is returned as leased: running, with one attempt more, a heartbeat
-- of now and the new token; and the table changes by that lease only.
pub dequeue-Leased :
    (c : Call) (types : List String) (t : Table) (j : Job)
    → (dequeue c types t).0 ≡ ok j
    → Leased c types t j
unfolding lease_row to_job
dequeue-Leased c types t j h =
    let (r, picked, job, table) = dequeue_ok c types t j h in
    let best = pick-IsBest c types t.rows r picked in
    record {
      row = r;
      present = best.present;
      due = eligible-IsDue c.now types r best.ready;
      first = IsDue-first c types r t.rows best.first;
      handed_out = job;
      taken = ground (arith, job);
      written = table;
    }

-- Where no statement fails and some row is due, a Dequeue returns a job.
pub dequeue_returns :
    (c : Call) (x : String) (xs : List String) (t : Table) (r : Row)
    → c.fault ≡ none
    → In r t.rows
    → IsDue c.now (x ∷ xs) r
    → (j : Job) × ((dequeue c (x ∷ xs) t).0 ≡ ok j)
unfolding dequeue
dequeue_returns c x xs t r fine m due =
    let (b, picked) = pick-some c (x ∷ xs) t.rows r m (IsDue-eligible c.now (x ∷ xs) r due) in
    (to_job (lease_row c b), ground arith)

-- No running job is lost: in a valid table, once a running row's last heartbeat is more than five
-- minutes old, a Dequeue that asks for its type and runs without a driver error returns a job.
pub dequeue_reclaims :
    (c : Call) (x : String) (xs : List String) (t : Table) (r : Row)
    → IsValid t
    → c.fault ≡ none
    → In r t.rows
    → In r.job_type (x ∷ xs)
    → r.status ≡ running
    → ((h : ℕ) → r.heartbeat_at ≡ some h → h + 300 < c.now)
    → (j : Job) × ((dequeue c (x ∷ xs) t).0 ≡ ok j)
dequeue_reclaims c x xs t r v fine m wanted on late = elim (Option-cases r.heartbeat_at) [
  | inl silent ↦ absurd (All-In HasLease t.rows r v.leased m on silent)
  | inr (h, beat) ↦ dequeue_returns c x xs t r fine m (wanted, inr (on, (h, beat, late h beat)))
]

-- A Dequeue changes nothing, or leases one row, which was due.
pub dequeue_change :
    (c : Call) (types : List String) (t : Table)
    → ((dequeue c types t).1 ≡ t)
      ⊎ ((r : Row) × In r t.rows
          × IsDue c.now types r
          × ((dequeue c types t).1
              ≡ record t { rows = update_where (λ q. q.id == r.id) (lease_row c) t.rows }))
dequeue_change c types t = elim (Result-cases (dequeue c types t).0) [
  | inl (j, got) ↦
      let l = dequeue-Leased c types t j got in inr (l.row, l.present, l.due, l.written)
  | inr (e, failed) ↦ inl (dequeue_err c types t e failed)
]
