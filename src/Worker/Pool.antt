-- ===== src/Worker/Pool.antt =====
-- internal/worker/worker.go. The queue is the interface queue.Provider of
-- internal/platform/queue/queue.go, over a store `S`; an `E` is what one call takes from outside,
-- such as the clock. Other clients change the store between two calls of a worker.
use shiori_server.Prelude.{
  ℕ, String, Bool, true, false, ◌||◌, Option, none, some, List, [], ◌∷◌, ◌++◌, ◌==◌, if◌then◌else◌,
}
use shiori_server.Prelude.Map.{find, put}
use shiori_server.Queue.Types.{QueueError, no_jobs, conflict, Result, ok, err, Job, is_cancelled}

-- What the worker calls of queue.Provider.
pub record Provider (E S : Type 0) : Type 0 where
  pub dequeue : E → List String → S → Result Job × S
  pub ack : E → ℕ → S → Option QueueError × S
  pub nack : E → ℕ → String → S → Option QueueError × S
  pub heartbeat : E → ℕ → S → Option QueueError × S
  pub status : E → ℕ → S → Result Job

-- A handler's error for a job, none for success; the Bool says whether the context of the job was
-- cancelled meanwhile.
abbrev pub Handler : Type 0
Handler = Job → Bool → Option String

pub record Pool : Type 0 where
  pub handlers : List (String × Handler)
  pub types : List String
  pub concurrency : ℕ

-- New. A number that is not positive stands as 0.
unfoldable pub new_pool : ℕ → Pool
new_pool n = record { handlers = []; types = []; concurrency = if n == 0 then 1 else n }

unfoldable pub register : String → Handler → Pool → Pool
register t h p = record p { handlers = put t h p.handlers; types = p.types ++ t ∷ [] }

-- The circumstances of one job: its ticks, what happens from the last one to the end of the
-- handler, whether the pool shuts down meanwhile, and what happens between the last two calls.
pub record Circumstances (E S : Type 0) : Type 0 where
  pub ticks : List (E × (S → S))
  pub tail : S → S
  pub shutdown : Bool
  pub asked : E
  pub between : S → S
  pub told : E

-- What one turn of workerLoop does next: nothing, since the context is done, or another turn after
-- a pause of some seconds.
pub data Next : Type 0 where
  stop : Next
  again : ℕ → Next

abbrev pub is_idle : QueueError → Bool
is_idle no_jobs = true
is_idle conflict = true
is_idle _ = false

-- One turn: the circumstances of Dequeue, those of the job it may give, and whether the context is
-- done at the top of the loop, after a failed Dequeue and in the pause.
pub record Turn (E S : Type 0) : Type 0 where
  pub call : E
  pub job_run : Circumstances E S
  pub done_at_top : Bool
  pub done_after : Bool
  pub done_in_pause : Bool

module _ {E S : Type 0} where
  -- The call `q.Status` with the test that the worker makes on its result.
  abbrev pub sees_cancelled : Provider E S → E → ℕ → S → Bool
  sees_cancelled q e i s = elim (q.status e i s) [ ok j ↦ is_cancelled j.status | err x ↦ false ]

  -- The ticker's goroutine. Each entry is one second: what the other clients do to the store, and
  -- the circumstances of the tick's calls. It ends where it sees the job cancelled.
  unfoldable pub watch : Provider E S → List (E × (S → S)) → ℕ → S → Bool × S
  watch q [] i s = (false, s)
  watch q ((e, others) ∷ ticks) i s =
      let rest = watch q ticks i (q.heartbeat e i (others s)).1 in
      if sees_cancelled q e i (others s) then (true, others s) else rest

  -- What follows the handler. `others` is what other clients do between Status and the Ack or Nack.
  unfoldable pub settle : Provider E S → E → E → (S → S) → ℕ → Option String → S → S
  settle q e e' others i failure s = if sees_cancelled q e i s then others s else elim failure [
    | some reason ↦ (q.nack e' i reason (others s)).1
    | none ↦ (q.ack e' i (others s)).1
  ]

  unfoldable pub process_job : Provider E S → Circumstances E S → Pool → Job → S → S
  unfolding watch settle
  process_job q c p job s = elim (find job.job_type p.handlers) [
    | none ↦ (q.nack c.told job.id "no handler registered" s).1
    | some h ↦
        let (stopped, s') = watch q c.ticks job.id s in
        settle q c.asked c.told c.between job.id (h job (stopped || c.shutdown)) (c.tail s')
  ]

  unfoldable pub turn : Provider E S → Turn E S → Pool → S → Next × S
  unfolding process_job
  turn q u p s = if u.done_at_top then (stop, s) else elim (q.dequeue u.call p.types s).0 [
    | ok job ↦ (again 0, process_job q u.job_run p job (q.dequeue u.call p.types s).1)
    | err e ↦ (
      if is_idle e
          then (if u.done_in_pause then stop else again 2)
          else if u.done_after || u.done_in_pause
          then stop
          else again 5,
      (q.dequeue u.call p.types s).1,
    )
  ]

  -- The loop for as long as the context allows, at most over the turns of the list.
  unfoldable pub worker_loop : Provider E S → List (Turn E S) → Pool → S → S
  unfolding turn
  worker_loop q [] p s = s
  worker_loop q (u ∷ us) p s =
      let rest = worker_loop q us p (turn q u p s).1 in
      elim (turn q u p s).0 [ stop ↦ (turn q u p s).1 | again seconds ↦ rest ]
