-- ===== src/Api/Answers.antt =====
-- internal/jobs/http.go: what the answers of the endpoints say about the queue.
use shiori_server.Prelude.{
  ℕ, ◌<◌, ◌≡◌, ◌≢◌, refl, String, Bool, true, false, not, none, some, List, [], ◌∷◌, ◌++◌, arith,
  ◌⊎◌, inl, inr, All, Bool-cases, Option-cases,
}
use shiori_server.Queue.Types.{
  JobStatus, queued, cancelled, QueueError, job_not_found, driver, ok, err, is_live,
}
use shiori_server.Queue.Table.{Row, Table, Call, find_id, has_key}
use shiori_server.Queue.Sqlite.{enqueue, insert_row, prepare, status, to_job}
use shiori_server.Queue.Sqlite.Invariant.{IsValid}
use shiori_server.Queue.Sqlite.Lifecycle.{settle-Guards}
use shiori_server.Events.Hub.{Hub, publish}
use shiori_server.Api.Jobs.{
  found, no_content, accepted, problem, is_finished, job_status, cancel_job, Payload, validate,
  extract_job, enqueue_extract,
}

status_found :
    (c : Call) (i : ℕ) (t : Table) (r : Row)
    → c.fault ≡ none
    → find_id i t.rows ≡ some r
    → status c i t ≡ ok (to_job r)
unfolding status
status_found c i t r fine e = ground arith

status_missing :
    (c : Call) (i : ℕ) (t : Table)
    → find_id i t.rows ≡ none
    → (e : QueueError) × (status c i t ≡ err e)
unfolding status
status_missing c i t e = elim (Option-cases c.fault) [
  | inl fine ↦ (job_not_found, ground arith)
  | inr (x, fault) ↦ (driver x, ground arith)
]

live_or_finished : (s : JobStatus) → is_finished s ≡ not (is_live s)
live_or_finished s = ground arith

module _ {D : Type 0} where
  -- CancelJob where the calls on a valid table go through: without the job the answer is 404 and
  -- nothing changes; a finished job gives 409 and nothing changes; any other job is cancelled in the
  -- table, the event is published once, and the answer is 204.
  pub cancel_job_lem :
      (c c' : Call) (topic : String) (event : D) (i : ℕ) (t : Table) (h : Hub D)
      → IsValid t
      → c.fault ≡ none
      → c'.fault ≡ none
      → let p = cancel_job c c' topic event i (t, h) in
        ((find_id i t.rows ≡ none) × (p ≡ (problem 404 "Job Not Found", (t, h))))
        ⊎ ((r : Row) × (find_id i t.rows ≡ some r)
            × (((is_live r.status ≡ false) × (p ≡ (problem 409 "Job Already Finished", (t, h))))
                ⊎ ((is_live r.status ≡ true)
                    × (p.0 ≡ no_content)
                    × ((q : Row) × (find_id i p.1.0.rows ≡ some q) × (q.status ≡ cancelled))
                    × (p.1.1 ≡ publish c'.now topic event h))))
  unfolding cancel_job to_job
  cancel_job_lem c c' topic event i t h v fine fine' = elim (Option-cases (find_id i t.rows)) [
    | inl missing ↦
        let (e, answer) = status_missing c i t missing in inl (missing, ground (arith, answer))
    | inr (r, there) ↦
        let answer = status_found c i t r fine there in
        let finished = live_or_finished r.status in
        elim (settle-Guards c' i t r fine' v.distinct there).2 [
          | inl (live, done, written) ↦ inr (
            r,
            there,
            inr (
              live,
              ground (arith, answer, finished, live, done),
              (
                record r { status = cancelled; lease_token = none; updated_at = c'.now },
                ground (arith, answer, finished, live, done, written),
                refl,
              ),
              ground (arith, answer, finished, live, done),
            ),
          )
          | inr (dead, same) ↦ inr (r, there, inl (dead, ground (arith, answer, finished, dead)))
        ]
  ]

-- JobStatus gives the job of the id where it is there and the database answers; otherwise, an error
-- of the database included, it says 404.
pub job_status_lem :
    (c : Call) (i : ℕ) (t : Table)
    → ((r : Row) × (c.fault ≡ none)
        × (find_id i t.rows ≡ some r)
        × (job_status c i t ≡ found (to_job r)))
      ⊎ (((c.fault ≢ none) ⊎ (find_id i t.rows ≡ none))
          × (job_status c i t ≡ problem 404 "Job Not Found"))
unfolding job_status status
job_status_lem c i t = elim (Option-cases c.fault) [
  | inr (e, fault) ↦ inr (inl (λ n. cc), ground (arith, fault))
  | inl fine ↦ elim (Option-cases (find_id i t.rows)) [
    | inl missing ↦ inr (inr missing, ground (arith, fine, missing))
    | inr (r, there) ↦ inl (r, fine, there, ground (arith, fine, there))
  ]
]

find_id_last :
    (rs : List Row) (r : Row) → All (λ q. q.id < r.id) rs → find_id r.id (rs ++ r ∷ []) ≡ some r
find_id_last [] r h = ground arith
find_id_last (q ∷ rs) r h = ground (arith, h.0, find_id_last rs r h.1)

-- EnqueueExtract in a valid table: what it accepts is a valid payload, and the id of its answer is
-- that of a queued extraction job with that payload and no attempts, due at once.
pub enqueue_extract_accepts :
    (valid : List ℕ → Bool) (json : Payload → String) (c : Call) (key : String) (p : Payload)
    (t : Table) (i : ℕ)
    → IsValid t
    → (enqueue_extract valid json c key (some p) t).0 ≡ accepted i
    → (validate valid p ≡ true)
      × ((r : Row) × (find_id i (enqueue_extract valid json c key (some p) t).1.rows ≡ some r)
          × (r.status ≡ queued)
          × (r.job_type ≡ "extract_media")
          × (r.payload ≡ json p)
          × (r.attempts ≡ 0)
          × (r.scheduled_at ≡ c.now))
unfolding enqueue_extract enqueue insert_row
enqueue_extract_accepts valid json c key p t i v h = elim (Bool-cases (validate valid p)) [
  | inr bad ↦ absurd (ground (arith, bad, h))
  | inl good ↦ elim (Option-cases c.fault) [
    | inr (e, fault) ↦ absurd (ground (arith, good, fault, h))
    | inl fine ↦ elim (Bool-cases (has_key key t.rows)) [
      | inl taken ↦ absurd (ground (arith, good, fine, taken, h))
      | inr free ↦
          let r = insert_row t.next_id c.now (prepare c.now (extract_job key (json p))) in
          let last = find_id_last t.rows r v.fresh in
          let same : i ≡ t.next_id = ground (arith, good, fine, free, h) in
          (good, (r, ground (arith, good, fine, free, same, last), refl, refl, refl, refl, refl))
    ]
  ]
]
