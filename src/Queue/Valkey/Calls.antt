-- ===== src/Queue/Valkey/Calls.antt =====
-- internal/platform/queue/valkeyqueue/queue.go: the calls of the stream queue with their replies, the
-- map from IDs to jobs that they change, and what the documentation of the commands says.
use shiori_server.Prelude.{
  ℕ, ◌≡◌, String, Option, none, some, ◌⊎◌, List, [], ◌∷◌, ◌==◌, if◌then◌else◌,
}
use shiori_server.Queue.Types.{
  JobStatus, queued, succeeded, failed, cancelled, Job, QueueError, Result, ok, err,
}
use shiori_server.Queue.Valkey.{
  StatusValue, absent, unreadable, held, Client, enqueue_stream, dequeue_stream, ack_stream,
  nack_stream, heartbeat_stream, cancel_stream,
}

abbrev pub write : (ℕ → StatusValue) → ℕ → Job → ℕ → StatusValue
write view i job j = if i == j then held job else view j

-- What callers see under the status keys.
abbrev pub View : Type 0
View = ℕ → StatusValue

-- What the documentation of the commands says of the status keys: a SET that is answered has written
-- its key and no other, and one whose answer is an error has done so or nothing; the stream's commands
-- and EXPIRE write none; and as time passes keys expire and nothing else happens. `elapse` is what so
-- many seconds make of the server.
pub record Laws {S : Type 0} (c : Client S) (elapse : ℕ → S → S) : Type 0 where
  pub set_done :
      (s : S) (i : ℕ) (job : Job) (j : ℕ)
      → (c.set_key s i job).0 ≡ none
      → c.get_key (c.set_key s i job).1 j ≡ write (c.get_key s) i job j
  pub set_failed :
      (s : S) (i : ℕ) (job : Job) (e : String)
      → (c.set_key s i job).0 ≡ some e
      → ((j : ℕ) → c.get_key (c.set_key s i job).1 j ≡ c.get_key s j)
        ⊎ ((j : ℕ) → c.get_key (c.set_key s i job).1 j ≡ write (c.get_key s) i job j)
  pub get_elapse :
      (n : ℕ) (s : S) (j : ℕ)
      → (c.get_key (elapse n s) j ≡ c.get_key s j) ⊎ (c.get_key (elapse n s) j ≡ absent)
  pub get_xadd : (s : S) (job : Job) (j : ℕ) → c.get_key (c.xadd s job).1 j ≡ c.get_key s j
  pub get_xreadgroup : (s : S) (j : ℕ) → c.get_key (c.xreadgroup s).1 j ≡ c.get_key s j
  pub get_xack : (s : S) (i j : ℕ) → c.get_key (c.xack s i).1 j ≡ c.get_key s j
  pub get_xdel : (s : S) (i j : ℕ) → c.get_key (c.xdel s i).1 j ≡ c.get_key s j
  pub get_expire : (s : S) (i j : ℕ) → c.get_key (c.expire_key s i).1 j ≡ c.get_key s j

-- The calls, and the passing of seconds between them.
pub data Call : Type 0 where
  enqueues : Job → ℕ → Call
  dequeues : List String → ℕ → Call
  acks : ℕ → ℕ → Call
  nacks : ℕ → String → ℕ → Call
  beats : ℕ → Call
  cancels : ℕ → ℕ → Call
  passes : ℕ → Call

pub data Reply : Type 0 where
  gave : Job → Reply
  settled : Reply
  refused : QueueError → Reply

abbrev pub of_job : Result Job → Reply
of_job (ok job) = gave job
of_job (err e) = refused e

abbrev pub of_unit : Result (Unit {0}) → Reply
of_unit (ok u) = settled
of_unit (err e) = refused e

-- A job under a key gets a new status; a key without one is left.
abbrev pub change : (ℕ → StatusValue) → ℕ → JobStatus → String → ℕ → ℕ → StatusValue
change view i status reason now = elim (view i) [
  | absent ↦ view
  | unreadable e ↦ view
  | held job ↦ write view i (record job { status = status; error = reason; updated_at = now })
]

-- What a call that sets a status has done to the map, given its reply.
abbrev pub Settles : Reply → ℕ → JobStatus → String → ℕ → View → View → Type 0
Settles settled i status reason now view view' = view' ≡ change view i status reason now
Settles (refused e) i status reason now view view' =
    (view' ≡ view) ⊎ (view' ≡ change view i status reason now)
Settles (gave job) i status reason now view view' = ⊥

-- What a call, or the passing of time, has done to the map from IDs to jobs, given its reply.
abbrev pub Effect : Call → Reply → View → View → Type 0
Effect (enqueues job now) (gave given) view view' = view' ≡ write view given.id given
Effect (enqueues job now) (refused e) view view' =
    (view' ≡ view)
    ⊎ ((i : ℕ) × (view'
          ≡ write view i
              (record job { id = i; status = queued; created_at = now; updated_at = now })))
Effect (enqueues job now) settled view view' = ⊥
Effect (dequeues types now) (gave given) view view' =
    (view' ≡ view) ⊎ (view' ≡ write view given.id given)
Effect (dequeues types now) (refused e) view view' = view' ≡ view
Effect (dequeues types now) settled view view' = ⊥
Effect (acks i now) r view view' = Settles r i succeeded "" now view view'
Effect (nacks i reason now) r view view' = Settles r i failed reason now view view'
Effect (beats i) r view view' = view' ≡ view
Effect (cancels i now) r view view' = Settles r i cancelled "" now view view'
Effect (passes n) r view view' = (j : ℕ) → (view' j ≡ view j) ⊎ (view' j ≡ absent)

-- The effects of a history, one after the other.
abbrev pub Follows : List (Call × Reply) → View → View → Type 0
Follows [] view view' = view' ≡ view
Follows ((k, r) ∷ rest) view view' =
    (between : View) × Effect k r view between × Follows rest between view'

module _ {S : Type 0} (c : Client S) (elapse : ℕ → S → S) (marshal : String → Option String) where
  abbrev pub reply_to : S → Call → Reply × S
  reply_to s (enqueues job now) =
      (of_job (enqueue_stream c marshal s job now).0, (enqueue_stream c marshal s job now).1)
  reply_to s (dequeues types now) =
      (of_job (dequeue_stream c s types now).0, (dequeue_stream c s types now).1)
  reply_to s (acks i now) = (of_unit (ack_stream c s i now).0, (ack_stream c s i now).1)
  reply_to s (nacks i reason now) =
      (of_unit (nack_stream c s i reason now).0, (nack_stream c s i reason now).1)
  reply_to s (beats i) = (of_unit (heartbeat_stream c s i).0, (heartbeat_stream c s i).1)
  reply_to s (cancels i now) = (of_unit (cancel_stream c s i now).0, (cancel_stream c s i now).1)
  reply_to s (passes n) = (settled, elapse n s)

  -- Calls one after the other, each with its reply, and the state that they leave.
  abbrev pub history : S → List Call → List (Call × Reply) × S
  history s [] = ([], s)
  history s (k ∷ ks) =
      let rest = history (reply_to s k).1 ks in ((k, (reply_to s k).0) ∷ rest.0, rest.1)
