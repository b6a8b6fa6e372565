-- ===== src/Queue/Sqlite/Outcome.antt =====
-- The two things that a call of the SQLite queue can do to the table: nothing, or one statement.
use shiori_server.Prelude.{
  ℕ, suc, ◌≡◌, refl, String, Bool, false, List, [], ◌∷◌, ◌++◌, arith, ◌⊎◌, inl, inr, Option-cases,
  ◌==◌,
}
use shiori_server.Queue.Types.{Job}
use shiori_server.Queue.Table.{Row, Table, Call, update_where, has_key, find_id}
use shiori_server.Queue.Sqlite.{
  enqueue, dequeue, nack, exec, lease_row, nack_row, insert_row, prepare, pick,
}

pub exec-outcome :
    (c : Call) (test : Row → Bool) (f : Row → Row) (t : Table)
    → ((exec c test f t).1 ≡ t)
      ⊎ ((exec c test f t).1 ≡ record t { rows = update_where test f t.rows })
unfolding exec
exec-outcome c test f t = ground arith

pub dequeue-outcome :
    (c : Call) (types : List String) (t : Table)
    → ((dequeue c types t).1 ≡ t)
      ⊎ ((i : ℕ) × ((dequeue c types t).1
            ≡ record t { rows = update_where (λ q. q.id == i) (lease_row c) t.rows }))
unfolding dequeue
dequeue-outcome c [] t = inl refl
dequeue-outcome c (x ∷ xs) t = elim (Option-cases c.fault) [
  | inr (e, faulty) ↦ inl (ground arith)
  | inl fine ↦ elim (Option-cases (pick c (x ∷ xs) t.rows)) [
    | inl empty ↦ inl (ground arith)
    | inr (r, picked) ↦ inr (r.id, ground arith)
  ]
]

pub nack-outcome :
    (c : Call) (i : ℕ) (reason : String) (t : Table)
    → ((nack c i reason t).1 ≡ t)
      ⊎ ((n : ℕ) × (m : ℕ) × ((nack c i reason t).1
            ≡ record t { rows = update_where (λ q. q.id == i) (nack_row c reason n m) t.rows }))
unfolding nack
nack-outcome c i reason t = elim (Option-cases (find_id i t.rows)) [
  | inl missing ↦ inl (ground arith)
  | inr (r, found) ↦ elim (Option-cases c.fault) [
    | inr (e, faulty) ↦ inl (ground arith)
    | inl fine ↦ elim (Option-cases c.fault') [
      | inr (e, faulty) ↦ inl (ground arith)
      | inl fine' ↦ inr (r.attempts, r.max_attempts, ground arith)
    ]
  ]
]

pub enqueue-outcome :
    (c : Call) (j : Job) (t : Table)
    → ((enqueue c j t).1 ≡ t)
      ⊎ (((enqueue c j t).1 ≡ record {
        rows = t.rows ++ insert_row t.next_id c.now (prepare c.now j) ∷ [];
        next_id = suc t.next_id;
      })
          × (has_key j.idempotency_key t.rows ≡ false))
unfolding enqueue
enqueue-outcome c j t = ground arith
