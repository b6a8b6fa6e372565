-- ===== src/Queue/Sqlite/Invariant.antt =====
-- What holds of the job table between two calls.
use shiori_server.Prelude.{
  ℕ, suc, ◌<◌, ◌≡◌, refl, ◌≢◌, String, Bool, false, none, List, [], ◌∷◌, ◌++◌, arith, All, ◌==◌,
  inl, inr,
}
use shiori_server.Queue.Types.{queued, running, Job}
use shiori_server.Queue.Table.{Row, Table, Call, update_where, has_key}
use shiori_server.Queue.Table.Laws.{
  Distinct, KeepsKeys, All-append, All-update_where, Distinct-update_where, All-fresh_weaken,
  has_key-NoKey, Distinct-append_one,
}
use shiori_server.Queue.Sqlite.Outcome.{
  exec-outcome, dequeue-outcome, nack-outcome, enqueue-outcome,
}
use shiori_server.Queue.Sqlite.{
  enqueue, dequeue, ack, nack, heartbeat, cancel, exec, lease_row, nack_row, insert_row, prepare,
}
use shiori_server.Queue.Sqlite.Runs.{
  Op, enqueue_op, dequeue_op, ack_op, heartbeat_op, cancel_op, status_op, nack_op, apply, run,
  empty_table,
}

-- A running job has a heartbeat, so that its lease can go stale.
abbrev pub HasLease : Row → Type 0
HasLease r = r.status ≡ running → r.heartbeat_at ≢ none

pub record IsValid (t : Table) : Type 0 where
  pub distinct : Distinct t.rows
  pub fresh : All (λ r. r.id < t.next_id) t.rows
  pub leased : All HasLease t.rows

-- An update that keeps ids and keys, and gives no row the status running without a heartbeat.
record IsSafe (f : Row → Row) : Type 0 where
  keys : KeepsKeys f
  lease : (r : Row) → HasLease r → HasLease (f r)

update_where-IsValid :
    (test : Row → Bool) (f : Row → Row) (t : Table)
    → IsSafe f
    → IsValid t
    → IsValid (record t { rows = update_where test f t.rows })
update_where-IsValid test f t s v = record {
  distinct = Distinct-update_where test f s.keys t.rows v.distinct;
  fresh =
      All-update_where (λ r. r.id < t.next_id) test f t.rows (λ r _ h. ground (arith, s.keys r))
        v.fresh;
  leased = All-update_where HasLease test f t.rows (λ r _ h. s.lease r h) v.leased;
}

insert-IsValid :
    (now : ℕ) (k : Job) (t : Table)
    → has_key k.idempotency_key t.rows ≡ false
    → k.status ≡ queued
    → IsValid t
    → IsValid (record { rows = t.rows ++ insert_row t.next_id now k ∷ []; next_id = suc t.next_id })
unfolding insert_row
insert-IsValid now k t new q v = record {
  distinct =
      Distinct-append_one (insert_row t.next_id now k) t.rows v.fresh
        (has_key-NoKey k.idempotency_key t.rows new) v.distinct;
  fresh =
      All-append (λ r. r.id < suc t.next_id) t.rows _ (All-fresh_weaken t.next_id t.rows v.fresh)
        (omega arith, tt);
  leased = All-append HasLease t.rows _ v.leased ((λ e. cc), tt);
}

exec-IsValid :
    (c : Call) (test : Row → Bool) (f : Row → Row) (t : Table)
    → IsSafe f
    → IsValid t
    → IsValid (exec c test f t).1
exec-IsValid c test f t s v = elim (exec-outcome c test f t) [
  | inl e ↦ rw e v
  | inr e ↦ rw e (update_where-IsValid test f t s v)
]

lease_row-IsSafe : (c : Call) → IsSafe (lease_row c)
unfolding lease_row
lease_row-IsSafe c = record { keys = λ r. (refl, refl); lease = λ r _ _ e. cc }

nack_row-IsSafe : (c : Call) (reason : String) (n m : ℕ) → IsSafe (nack_row c reason n m)
unfolding nack_row
nack_row-IsSafe c reason n m = record { keys = λ r. (refl, refl); lease = λ r _ h. ground arith }

dequeue-IsValid :
    (c : Call) (types : List String) (t : Table) → IsValid t → IsValid (dequeue c types t).1
dequeue-IsValid c types t v = elim (dequeue-outcome c types t) [
  | inl e ↦ rw e v
  | inr (i, e) ↦ rw e (update_where-IsValid (λ q. q.id == i) (lease_row c) t (lease_row-IsSafe c) v)
]

nack-IsValid :
    (c : Call) (i : ℕ) (reason : String) (t : Table) → IsValid t → IsValid (nack c i reason t).1
nack-IsValid c i reason t v = elim (nack-outcome c i reason t) [
  | inl e ↦ rw e v
  | inr (n, m, e) ↦ rw e (
      update_where-IsValid (λ q. q.id == i) (nack_row c reason n m) t (nack_row-IsSafe c reason n m)
        v)
]

enqueue-IsValid : (c : Call) (j : Job) (t : Table) → IsValid t → IsValid (enqueue c j t).1
enqueue-IsValid c j t v = elim (enqueue-outcome c j t) [
  | inl e ↦ rw e v
  | inr (e, new) ↦ rw e (insert-IsValid c.now (prepare c.now j) t new refl v)
]

-- Every call keeps the table valid, whether it succeeds or fails.
pub apply-IsValid : (o : Op) (t : Table) → IsValid t → IsValid (apply o t)
unfolding apply ack heartbeat cancel
apply-IsValid (enqueue_op c j) t v = enqueue-IsValid c j t v
apply-IsValid (dequeue_op c types) t v = dequeue-IsValid c types t v
apply-IsValid (ack_op c i) t v =
    exec-IsValid c _ _ t (record { keys = λ r. (refl, refl); lease = λ r _ e. cc }) v
apply-IsValid (heartbeat_op c i) t v =
    exec-IsValid c _ _ t (record { keys = λ r. (refl, refl); lease = λ r _ _ e. cc }) v
apply-IsValid (cancel_op c i) t v =
    exec-IsValid c _ _ t (record { keys = λ r. (refl, refl); lease = λ r _ e. cc }) v
apply-IsValid (status_op c i) t v = v
apply-IsValid (nack_op c i reason) t v = nack-IsValid c i reason t v

-- Any calls at all, in any order, lead from a valid table to a valid one: ids and idempotency keys
-- stay distinct, ids stay below the next one, and every running job has a heartbeat.
pub run-IsValid : (os : List Op) (t : Table) → IsValid t → IsValid (run os t)
unfolding run
run-IsValid [] t v = v
run-IsValid (o ∷ os) t v = run-IsValid os (apply o t) (apply-IsValid o t v)

pub empty_table-IsValid : IsValid empty_table
empty_table-IsValid = record { distinct = tt; fresh = tt; leased = tt }
