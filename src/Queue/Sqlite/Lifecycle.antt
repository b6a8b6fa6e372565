-- ===== src/Queue/Sqlite/Lifecycle.antt =====
-- The life of one job in the table: which statuses follow which, what each call does to the row
-- that it names, and what it leaves alone.
use shiori_server.Prelude.{
  ℕ, ◌+◌, ◌*◌, ◌≤◌, ◌<◌, ◌≡◌, refl, String, Bool, true, false, ◌&&◌, Option, none, some, List, [],
  ◌∷◌, arith, inl, inr, ◌⊎◌, ◌==◌, Bool-cases,
}
use shiori_server.Queue.Types.{
  JobStatus, queued, succeeded, failed, cancelled, QueueError, job_not_found, is_running, is_live,
}
use shiori_server.Queue.Table.{Row, Table, Call, find_id}
use shiori_server.Queue.Table.Laws.{
  Distinct, KeepsKeys, find_id-update_where, affected_missing, affected_found,
}
use shiori_server.Queue.Sqlite.{ack, nack, heartbeat, cancel, exec, nack_row}

pub find_id_id : (i : ℕ) (rs : List Row) (r : Row) → find_id i rs ≡ some r → r.id ≡ i
find_id_id i [] r h = cc
find_id_id i (q ∷ rs) r h = ground (arith, find_id_id i rs r)

module _ (c : Call) (i : ℕ) (guard : JobStatus → Bool) (f : Row → Row) (t : Table) where
  exec_missing :
      c.fault ≡ none
      → find_id i t.rows ≡ none
      → exec c (λ q. q.id == i && guard q.status) f t ≡ (some job_not_found, t)
  unfolding exec
  exec_missing fine missing =
      ground (arith, affected_missing i (λ q. guard q.status) t.rows missing)

  exec_refused :
      (r : Row)
      → c.fault ≡ none
      → Distinct t.rows
      → find_id i t.rows ≡ some r
      → guard r.status ≡ false
      → exec c (λ q. q.id == i && guard q.status) f t ≡ (some job_not_found, t)
  unfolding exec
  exec_refused r fine d found no_entry =
      ground (arith, affected_found i (λ q. guard q.status) t.rows r d found)

  exec_done :
      (r : Row)
      → KeepsKeys f
      → c.fault ≡ none
      → Distinct t.rows
      → find_id i t.rows ≡ some r
      → guard r.status ≡ true
      → ((exec c (λ q. q.id == i && guard q.status) f t).0 ≡ none)
        × (find_id i (exec c (λ q. q.id == i && guard q.status) f t).1.rows ≡ some (f r))
  unfolding exec
  exec_done r keeps fine d found entry = (
    ground (arith, affected_found i (λ q. guard q.status) t.rows r d found),
    ground (
      arith,
      affected_found i (λ q. guard q.status) t.rows r d found,
      find_id_id i t.rows r found,
      find_id-update_where (λ q. q.id == i && guard q.status) f keeps i t.rows,
    ),
  )

-- What a guarded call answers for the row `r` of its id, and what it leaves there: where the guard
-- admits the status, no error and the written row; otherwise ErrJobNotFound and the old table.
abbrev pub Guards :
    (JobStatus → Bool) → (Row → Row) → ℕ → Table → Row → Option QueueError × Table → Type 0
Guards guard f i t r p =
    ((guard r.status ≡ true) × (p.0 ≡ none) × (find_id i p.1.rows ≡ some (f r)))
    ⊎ ((guard r.status ≡ false) × (p ≡ (some job_not_found, t)))

exec-Guards :
    (c : Call) (i : ℕ) (guard : JobStatus → Bool) (f : Row → Row) (t : Table) (r : Row)
    → KeepsKeys f
    → c.fault ≡ none
    → Distinct t.rows
    → find_id i t.rows ≡ some r
    → Guards guard f i t r (exec c (λ q. q.id == i && guard q.status) f t)
exec-Guards c i guard f t r keeps fine d found = elim (Bool-cases (guard r.status)) [
  | inl e ↦ let (done, row) = exec_done c i guard f t r keeps fine d found e in inl (e, done, row)
  | inr e ↦ inr (e, exec_refused c i guard f t r fine d found e)
]

-- In a table with distinct ids, and with no driver error, on the id of an existing row: Ack and
-- Heartbeat take effect exactly on a running job, Cancel exactly on a job that is not finished; the
-- row then has what the call writes. Where the status does not admit the call the answer is
-- ErrJobNotFound and the table is unchanged.
pub settle-Guards :
    (c : Call) (i : ℕ) (t : Table) (r : Row)
    → c.fault ≡ none
    → Distinct t.rows
    → find_id i t.rows ≡ some r
    → Guards is_running
        (λ q. record q { status = succeeded; lease_token = none; updated_at = c.now })
        i
        t
        r
        (ack c i t)
      × Guards is_running
          (λ q. record q { heartbeat_at = some c.now; updated_at = c.now })
          i
          t
          r
          (heartbeat c i t)
      × Guards is_live
          (λ q. record q { status = cancelled; lease_token = none; updated_at = c.now })
          i
          t
          r
          (cancel c i t)
unfolding ack heartbeat cancel
settle-Guards c i t r fine d found = (
  exec-Guards c i is_running _ t r (λ q. (refl, refl)) fine d found,
  exec-Guards c i is_running _ t r (λ q. (refl, refl)) fine d found,
  exec-Guards c i is_live _ t r (λ q. (refl, refl)) fine d found,
)

pub nack_row_keys : (c : Call) (reason : String) (n m : ℕ) → KeepsKeys (nack_row c reason n m)
unfolding nack_row
nack_row_keys c reason n m r = (refl, refl)

nack-found :
    (c : Call) (i : ℕ) (reason : String) (t : Table) (r : Row)
    → c.fault ≡ none
    → c.fault' ≡ none
    → find_id i t.rows ≡ some r
    → find_id i (nack c i reason t).1.rows ≡ some (nack_row c reason r.attempts r.max_attempts r)
unfolding nack
nack-found c i reason t r fine fine' found = ground (
  arith,
  find_id_id i t.rows r found,
  find_id-update_where (λ q. q.id == i) (nack_row c reason r.attempts r.max_attempts)
      (nack_row_keys c reason r.attempts r.max_attempts) i t.rows,
)

nack_row-cases :
    (c : Call) (reason : String) (r : Row)
    → let q = nack_row c reason r.attempts r.max_attempts r in
      (((r.max_attempts ≤ r.attempts) × (q.status ≡ failed) × (q.scheduled_at ≡ c.now))
        ⊎ ((r.attempts < r.max_attempts)
            × (q.status ≡ queued)
            × (((r.attempts ≡ 0) × (q.scheduled_at ≡ c.now + 60))
                ⊎ ((0 < r.attempts) × (q.scheduled_at ≡ c.now + r.attempts * 300)))))
unfolding nack_row
nack_row-cases c reason r = ground arith

-- Nack with no driver error, on the id of an existing row: where the row has used up its attempts
-- it fails now, and otherwise it is queued again, five minutes per attempt from now, or one minute
-- where there was none. The reason is recorded and the lease is dropped. The row's status does not
-- matter.
pub nack_lem :
    (c : Call) (i : ℕ) (reason : String) (t : Table) (r : Row)
    → c.fault ≡ none
    → c.fault' ≡ none
    → find_id i t.rows ≡ some r
    → (q : Row) × (find_id i (nack c i reason t).1.rows ≡ some q)
      × (q.error ≡ some reason)
      × (q.lease_token ≡ none)
      × (((r.max_attempts ≤ r.attempts) × (q.status ≡ failed) × (q.scheduled_at ≡ c.now))
          ⊎ ((r.attempts < r.max_attempts)
              × (q.status ≡ queued)
              × (((r.attempts ≡ 0) × (q.scheduled_at ≡ c.now + 60))
                  ⊎ ((0 < r.attempts) × (q.scheduled_at ≡ c.now + r.attempts * 300)))))
nack_lem c i reason t r fine fine' found = (
  nack_row c reason r.attempts r.max_attempts r,
  nack-found c i reason t r fine fine' found,
  unfold nack_row in refl,
  unfold nack_row in refl,
  nack_row-cases c reason r,
)
