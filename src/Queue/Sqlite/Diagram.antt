-- ===== src/Queue/Sqlite/Diagram.antt =====
-- The status diagram of a job, over any calls of the SQLite queue in any order.
use shiori_server.Prelude.{
  ℕ, ◌≡◌, refl, String, Bool, true, false, not, some, List, [], ◌∷◌, arith, All, inl, inr, ◌==◌,
  Bool-cases,
}
use shiori_server.Queue.Types.{
  JobStatus, queued, running, succeeded, cancelled, is_running, is_live,
}
use shiori_server.Queue.Table.{Row, Table, Call, update_where, find_id}
use shiori_server.Queue.Table.Laws.{KeepsKeys, find_id-update_where, find_id-append, find_id-In}
use shiori_server.Queue.Sqlite.{dequeue, ack, nack, heartbeat, cancel, exec, lease_row, nack_row}
use shiori_server.Queue.Sqlite.Outcome.{exec-outcome, enqueue-outcome, nack-outcome}
use shiori_server.Queue.Sqlite.Dispatch.{dequeue_change}
use shiori_server.Queue.Sqlite.Order.{IsDue}
use shiori_server.Queue.Sqlite.Invariant.{IsValid, apply-IsValid}
use shiori_server.Queue.Sqlite.Lifecycle.{find_id_id, nack_row_keys}
use shiori_server.Queue.Sqlite.Runs.{
  Op, enqueue_op, dequeue_op, ack_op, heartbeat_op, cancel_op, status_op, nack_op, apply, run,
}

-- How a job's status may change by one call other than a Nack.
pub data Edge : JobStatus → JobStatus → Type 0 where
  stay : {s : JobStatus} → Edge s s
  lease : Edge queued running
  finish : Edge running succeeded
  stop : {s : JobStatus} → is_live s ≡ true → Edge s cancelled

-- The call is no Nack of job `i`.
abbrev pub spares : ℕ → Op → Bool
spares i (nack_op c k reason) = not (k == i)
spares i (enqueue_op c j) = true
spares i (dequeue_op c types) = true
spares i (ack_op c k) = true
spares i (heartbeat_op c k) = true
spares i (cancel_op c k) = true
spares i (status_op c k) = true

-- What one call makes of the row `r` of id `i`: it is still there, moved along an edge; a row that
-- is not live is the same in every column.
pub record Follows (i : ℕ) (r : Row) (u : Table) : Type 0 where
  pub row : Row
  pub found : find_id i u.rows ≡ some row
  pub edge : Edge r.status row.status
  pub settled : is_live r.status ≡ false → row ≡ r

same_row : (i : ℕ) (r : Row) (u : Table) → find_id i u.rows ≡ some r → Follows i r u
same_row i r u h = record { row = r; found = h; edge = stay; settled = λ _. refl }

-- An update whose test and function respect the diagram.
update-Follows :
    (test : Row → Bool) (f : Row → Row) (i : ℕ) (r : Row) (t : Table)
    → KeepsKeys f
    → (test r ≡ true → Edge r.status (f r).status × (is_live r.status ≡ true))
    → find_id i t.rows ≡ some r
    → Follows i r (record t { rows = update_where test f t.rows })
update-Follows test f i r t keeps ok h = elim (Bool-cases (test r)) [
  | inl e ↦ record {
    row = f r;
    found = ground (arith, find_id-update_where test f keeps i t.rows);
    edge = (ok e).0;
    settled = λ dead. cc (ok e).1;
  }
  | inr e ↦ same_row i r _ (ground (arith, find_id-update_where test f keeps i t.rows))
]

exec-Follows :
    (c : Call) (test : Row → Bool) (f : Row → Row) (i : ℕ) (r : Row) (t : Table)
    → KeepsKeys f
    → (test r ≡ true → Edge r.status (f r).status × (is_live r.status ≡ true))
    → find_id i t.rows ≡ some r
    → Follows i r (exec c test f t).1
exec-Follows c test f i r t keeps ok h = elim (exec-outcome c test f t) [
  | inl e ↦ rw e (same_row i r t h)
  | inr e ↦ rw e (update-Follows test f i r t keeps ok h)
]

running_finish : (s : JobStatus) → is_running s ≡ true → Edge s succeeded × (is_live s ≡ true)
running_finish running h = (finish, refl)
running_finish s h = cc

running_beat : (s : JobStatus) → is_running s ≡ true → Edge s s × (is_live s ≡ true)
running_beat running h = (stay, refl)
running_beat s h = cc

due_lease :
    (now : ℕ) (types : List String) (r : Row)
    → IsDue now types r
    → Edge r.status running × (is_live r.status ≡ true)
due_lease now types r (_, inl (q, _)) = rw q (lease, refl)
due_lease now types r (_, inr (q, _)) = rw q (stay, refl)

dequeue-Follows :
    (c : Call) (types : List String) (i : ℕ) (r : Row) (t : Table)
    → IsValid t
    → find_id i t.rows ≡ some r
    → Follows i r (dequeue c types t).1
unfolding lease_row
dequeue-Follows c types i r t v h = elim (dequeue_change c types t) [
  | inl e ↦ rw e (same_row i r t h)
  | inr (p, m, due, e) ↦ rw e (
      update-Follows (λ q. q.id == p.id) (lease_row c) i r t (λ q. (refl, refl))
        (λ same.
          let here : p ≡ r =
            ground (arith, find_id-In t.rows p v.distinct m, find_id_id i t.rows r h) in
          due_lease c.now types r (rw here at due))
        h)
]

nack-Follows :
    (c : Call) (k : ℕ) (reason : String) (i : ℕ) (r : Row) (t : Table)
    → not (k == i) ≡ true
    → find_id i t.rows ≡ some r
    → Follows i r (nack c k reason t).1
nack-Follows c k reason i r t other h = elim (nack-outcome c k reason t) [
  | inl e ↦ rw e (same_row i r t h)
  | inr (n, m, e) ↦ rw e (
      update-Follows (λ q. q.id == k) (nack_row c reason n m) i r t (nack_row_keys c reason n m)
        (λ same. absurd (ground (arith, find_id_id i t.rows r h))) h)
]

-- One call on a valid table, other than a Nack of job `i`, moves the row of `i` along an edge of
-- the diagram, and leaves it as it is, in every column, once the job is finished.
pub apply-Follows :
    (o : Op) (i : ℕ) (r : Row) (t : Table)
    → IsValid t
    → spares i o ≡ true
    → find_id i t.rows ≡ some r
    → Follows i r (apply o t)
unfolding apply ack heartbeat cancel
apply-Follows (enqueue_op c j) i r t v s h = elim (enqueue-outcome c j t) [
  | inl e ↦ rw e (same_row i r t h)
  | inr (e, _) ↦ rw e (same_row i r _ (find_id-append i t.rows _ r h))
]
apply-Follows (dequeue_op c types) i r t v s h = dequeue-Follows c types i r t v h
apply-Follows (ack_op c k) i r t v s h =
    exec-Follows c _ _ i r t (λ q. (refl, refl)) (λ e. running_finish r.status (ground arith)) h
apply-Follows (heartbeat_op c k) i r t v s h =
    exec-Follows c _ _ i r t (λ q. (refl, refl)) (λ e. running_beat r.status (ground arith)) h
apply-Follows (cancel_op c k) i r t v s h =
    exec-Follows c _ _ i r t (λ q. (refl, refl))
      (λ e. let live : is_live r.status ≡ true = ground arith in (stop live, live)) h
apply-Follows (status_op c k) i r t v s h = same_row i r t h
apply-Follows (nack_op c k reason) i r t v s h = nack-Follows c k reason i r t s h

-- A finished job is never touched again, by any calls in any order, as long as no Nack names it.
pub run_settled :
    (os : List Op) (i : ℕ) (r : Row) (t : Table)
    → IsValid t
    → All (λ o. spares i o ≡ true) os
    → find_id i t.rows ≡ some r
    → is_live r.status ≡ false
    → find_id i (run os t).rows ≡ some r
unfolding run
run_settled [] i r t v s h dead = h
run_settled (o ∷ os) i r t v s h dead =
    let step = apply-Follows o i r t v s.0 h in
    run_settled os i r (apply o t) (apply-IsValid o t v) s.1 (rw (← step.settled dead) step.found)
      dead
