-- ===== src/Queue/Sqlite/Exclusion.antt =====
-- internal/platform/queue/sqlitequeue/queue.go: that a leased job is not handed out again by Dequeue
-- while its lease is young.
use shiori_server.Prelude.{
  ℕ, ◌+◌, ◌≤◌, ◌≡◌, ◌≢◌, String, false, List, [], ◌∷◌, arith, All, inl, inr, ◌==◌, Bool-cases,
}
use shiori_server.Queue.Types.{Job, ok}
use shiori_server.Queue.Table.{Row, Table, Call, update_where}
use shiori_server.Queue.Table.Laws.{All-In, All-update_where}
use shiori_server.Queue.Sqlite.{dequeue, eligible, lease_row, to_job, stale_after}
use shiori_server.Queue.Sqlite.Order.{pick-IsBest, IsDue-eligible}
use shiori_server.Queue.Sqlite.Dispatch.{dequeue_ok, dequeue_change}

-- Dequeues one after the other.
abbrev pub after_dequeues : List (Call × List String) → Table → Table
after_dequeues [] t = t
after_dequeues ((c, types) ∷ ks) t = after_dequeues ks (dequeue c types t).1

-- Up to a time a row with the id is not one that a Dequeue takes.
abbrev IsKept : ℕ → ℕ → Row → Type 0
IsKept i until q =
    q.id ≡ i → (now : ℕ) (types : List String) → now ≤ until → eligible now types q ≡ false

eligible_of_lease :
    (c : Call) (r : Row) (now : ℕ) (types : List String)
    → now ≤ c.now + stale_after
    → eligible now types (lease_row c r) ≡ false
unfolding eligible lease_row
eligible_of_lease c r now types h = ground arith

leased_rows :
    (c : Call) (i : ℕ) (rows : List Row)
    → All (IsKept i (c.now + stale_after)) (update_where (λ q. q.id == i) (lease_row c) rows)
leased_rows c i [] = tt
leased_rows c i (q ∷ rows) = (
  elim (Bool-cases (q.id == i)) [
    | inl same ↦ rw same (λ _ now types h. eligible_of_lease c q now types h)
    | inr other ↦ rw other (λ e. absurd (ground (arith, other, e)))
  ],
  leased_rows c i rows,
)

-- A Dequeue up to that time does not take such a row, and so leaves it.
dequeue-IsKept :
    (i until : ℕ) (c : Call) (types : List String) (t : Table)
    → c.now ≤ until
    → All (IsKept i until) t.rows
    → All (IsKept i until) (dequeue c types t).1.rows
unfolding lease_row
dequeue-IsKept i until c types t early h = elim (dequeue_change c types t) [
  | inl same ↦ rw same h
  | inr (r, present, due, written) ↦ rw written (
      All-update_where (IsKept i until) (λ q. q.id == r.id) (lease_row c) t.rows
        (λ q one k e.
          let mine : r.id ≡ i = ground (arith, one, e) in
          let not_due = All-In (IsKept i until) t.rows r h present mine c.now types early in
          absurd (cc (not_due, IsDue-eligible c.now types r due)))
        h)
]

after_dequeues-IsKept :
    (i until : ℕ) (ks : List (Call × List String)) (t : Table)
    → All (λ k. k.0.now ≤ until) ks
    → All (IsKept i until) t.rows
    → All (IsKept i until) (after_dequeues ks t).rows
after_dequeues-IsKept i until [] t early h = h
after_dequeues-IsKept i until ((c, types) ∷ ks) t early h =
    after_dequeues-IsKept i until ks (dequeue c types t).1 early.1
      (dequeue-IsKept i until c types t early.0 h)

-- A lease excludes: after a Dequeue that returned a job, and any number of further Dequeues, no
-- Dequeue returns the same job again, where all of them run at most five minutes after the first one,
-- whatever types they ask for and whichever of them fail. No other call comes between.
pub dequeue_exclusive :
    (c c' : Call) (types types' : List String) (between : List (Call × List String)) (t : Table)
    (j j' : Job)
    → All (λ k. k.0.now ≤ c.now + stale_after) between
    → c'.now ≤ c.now + stale_after
    → (dequeue c types t).0 ≡ ok j
    → (dequeue c' types' (after_dequeues between (dequeue c types t).1)).0 ≡ ok j'
    → j'.id ≢ j.id
unfolding to_job lease_row
dequeue_exclusive c c' types types' between t j j' early h first second =
    let (r, picked, job, table) = dequeue_ok c types t j first in
    let later = after_dequeues between (dequeue c types t).1 in
    let (r', picked', job', table') = dequeue_ok c' types' later j' second in
    let best = pick-IsBest c' types' later.rows r' picked' in
    let leased : All (IsKept r.id (c.now + stale_after)) (dequeue c types t).1.rows =
      rw table (leased_rows c r.id t.rows) in
    let kept =
      after_dequeues-IsKept r.id (c.now + stale_after) between (dequeue c types t).1 early leased in
    λ e. cc (
      best.ready,
      All-In (IsKept r.id (c.now + stale_after)) later.rows r' kept best.present
          (ground (arith, job, job', e)) c'.now types' h,
    )
