-- ===== src/Worker/Settling.antt =====
-- internal/worker/worker.go: what a job's run leaves in the store, from what the queue promises.
use shiori_server.Prelude.{
  ℕ, ◌≡◌, ◌≢◌, refl, String, false, Option, none, some, List, [], ◌∷◌, ◌++◌, arith, inl, inr, ◌||◌,
  All, Option-cases, eq_iff,
}
use shiori_server.Prelude.Map.{find, put, find-put}
use shiori_server.Queue.Types.{Job}
use shiori_server.Worker.Pool.{
  Provider, Handler, Pool, register, sees_cancelled, watch, settle, Circumstances, process_job,
}

-- What a queue promises of a running job, for calls that go through: Status finds it, a heartbeat
-- leaves it running, and an Ack or a Nack ends its run.
pub record Promises {E S : Type 0} (q : Provider E S) : Type 1 where
  pub Healthy : E → Type 0
  pub Running : ℕ → S → Type 0
  pub Settled : ℕ → S → Type 0
  pub seen : (e : E) (i : ℕ) (s : S) → Healthy e → Running i s → sees_cancelled q e i s ≡ false
  pub kept : (e : E) (i : ℕ) (s : S) → Healthy e → Running i s → Running i (q.heartbeat e i s).1
  pub acked : (e : E) (i : ℕ) (s : S) → Healthy e → Running i s → Settled i (q.ack e i s).1
  pub nacked :
      (e : E) (i : ℕ) (reason : String) (s : S)
      → Healthy e
      → Running i s
      → Settled i (q.nack e i reason s).1

module _ {E S : Type 0} (q : Provider E S) (promises : Promises q) where
  -- The others leave the job `i` running.
  abbrev pub Spares : ℕ → (S → S) → Type 0
  Spares i f = (s : S) → promises.Running i s → promises.Running i (f s)

  pub record IsCalm (i : ℕ) (c : Circumstances E S) : Type 0 where
    pub ticks : All (λ t. promises.Healthy t.0 × Spares i t.1) c.ticks
    pub tail : Spares i c.tail
    pub between : Spares i c.between
    pub asked : promises.Healthy c.asked
    pub told : promises.Healthy c.told

  watch_calm :
      (i : ℕ) (ticks : List (E × (S → S))) (s : S)
      → All (λ t. promises.Healthy t.0 × Spares i t.1) ticks
      → promises.Running i s
      → ((watch q ticks i s).0 ≡ false) × promises.Running i (watch q ticks i s).1
  unfolding watch
  watch_calm i [] s h r = (refl, r)
  watch_calm i ((e, f) ∷ ticks) s h r =
      let r' = h.0.1 s r in
      rw (promises.seen e i (f s) h.0.0 r')
        (watch_calm i ticks (q.heartbeat e i (f s)).1 h.1 (promises.kept e i (f s) h.0.0 r'))

  settle_calm :
      (e e' : E) (f : S → S) (i : ℕ) (failure : Option String) (s : S)
      → promises.Healthy e
      → promises.Healthy e'
      → Spares i f
      → promises.Running i s
      → promises.Settled i (settle q e e' f i failure s)
  unfolding settle
  settle_calm e e' f i none s h h' k r =
      rw (promises.seen e i s h r) (promises.acked e' i (f s) h' (k s r))
  settle_calm e e' f i (some reason) s h h' k r =
      rw (promises.seen e i s h r) (promises.nacked e' i reason (f s) h' (k s r))

  -- A worker does not leave a job running: where the calls on the queue go through and nobody else
  -- touches the job, it is settled after processJob, whatever handler is registered, if any, and
  -- however many ticks the run takes.
  pub process_job_settles :
      (c : Circumstances E S) (p : Pool) (job : Job) (s : S)
      → IsCalm job.id c
      → promises.Running job.id s
      → promises.Settled job.id (process_job q c p job s)
  unfolding process_job
  process_job_settles c p job s h r = elim (Option-cases (find job.job_type p.handlers)) [
    | inl e ↦ rw (e, process_job) (promises.nacked c.told job.id "no handler registered" s h.told r)
    | inr (handler, e) ↦
        let w = watch_calm job.id c.ticks s h.ticks r in
        rw (e, process_job)
          (settle_calm c.asked c.told c.between job.id
            (handler job ((watch q c.ticks job.id s).0 || c.shutdown))
            (c.tail (watch q c.ticks job.id s).1) h.asked h.told h.between
            (h.tail (watch q c.ticks job.id s).1 w.1))
  ]

-- A pool's types are those of its handlers.
abbrev pub Covered : Pool → Type 0
Covered p = All (λ t. find t p.handlers ≢ none) p.types

Covered-put :
    (t : String) (h : Handler) (m : List (String × Handler)) (ts : List String)
    → All (λ t'. find t' m ≢ none) ts
    → All (λ t'. find t' (put t h m) ≢ none) (ts ++ t ∷ [])
Covered-put t h m [] c = (ground (arith, find-put t t h m, eq_iff t t), tt)
Covered-put t h m (t' ∷ ts) c = (ground (arith, find-put t t' h m, c.0), Covered-put t h m ts c.1)

unfoldable pub registered : List (String × Handler) → Pool → Pool
unfolding register
registered [] p = p
registered ((t, h) ∷ hs) p = registered hs (register t h p)

pub registered-Covered :
    (hs : List (String × Handler)) (p : Pool) → Covered p → Covered (registered hs p)
unfolding registered register
registered-Covered [] p c = c
registered-Covered ((t, h) ∷ hs) p c =
    registered-Covered hs (register t h p) (Covered-put t h p.handlers p.types c)
