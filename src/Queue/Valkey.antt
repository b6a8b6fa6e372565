-- ===== src/Queue/Valkey.antt =====
-- internal/platform/queue/valkeyqueue/queue.go: the queue over a Valkey stream. The client library
-- is given: its commands on the server's state `S`, each with what the code reads of the reply. The
-- value under a status key is the job that its JSON text holds. That a key expires, seven days after it
-- was written, is the passing of time in Queue.Valkey.Calls.
pub mod Calls
pub mod Laws
mod Tests
use shiori_server.Prelude.{
  ℕ, Bool, true, false, String, Option, none, some, List, [], ◌∷◌, if◌then◌else◌, str_eq,
}
use shiori_server.Queue.Types.{
  JobStatus, queued, running, succeeded, failed, cancelled, Job, QueueError, job_not_found, no_jobs,
  driver, Result, ok, err,
}

-- A stream message: its values that Dequeue reads. `payload` is none where it is no text.
pub record StreamMessage : Type 0 where
  pub id : ℕ
  pub idempotency_key : String
  pub job_type : String
  pub payload : Option String

-- What XREADGROUP answers: redis.Nil, another error, or the messages of the first stream.
pub data StreamReply : Type 0 where
  nil_reply : StreamReply
  broken : String → StreamReply
  messages : List StreamMessage → StreamReply

-- What GET answers: redis.Nil, another error, a text that is no job, or a job.
pub data StatusValue : Type 0 where
  absent : StatusValue
  unreadable : String → StatusValue
  held : Job → StatusValue

-- The commands. A command that only succeeds or fails answers with its error.
pub record Client (S : Type 0) : Type 0 where
  pub xgroup_create : S → Option String × S
  pub xadd : S → Job → Result ℕ × S
  pub xreadgroup : S → StreamReply × S
  pub xack : S → ℕ → Option String × S
  pub xdel : S → ℕ → Option String × S
  pub set_key : S → ℕ → Job → Option String × S
  pub get_key : S → ℕ → StatusValue
  pub expire_key : S → ℕ → Option String × S

abbrev pub unless_error : Option String → Result (Unit {0})
unless_error none = ok tt
unless_error (some e) = err (driver e)

abbrev pub is_busy_group : String → Bool
is_busy_group e = str_eq e "BUSYGROUP Consumer Group name already exists"

module _ {S : Type 0} (c : Client S) where
  abbrev pub group_error : Option String → Result (Unit {0})
  group_error none = ok tt
  group_error (some e) = if is_busy_group e then ok tt else err (driver e)

  unfoldable pub ensure_group : S → Result (Unit {0}) × S
  ensure_group s = (group_error (c.xgroup_create s).0, (c.xgroup_create s).1)

  -- The job is changed in place: its ID, status and times.
  abbrev pub stamped : Job → ℕ → ℕ → Job
  stamped job id now = record job { id = id; status = queued; created_at = now; updated_at = now }

  abbrev pub recorded : Job → Option String × S → Result Job × S
  recorded job (none, s) = (ok job, s)
  recorded job (some e, s) = (err (driver e), s)

  abbrev pub added : Job → ℕ → Result ℕ × S → Result Job × S
  added job now (err e, s) = (err e, s)
  added job now (ok id, s) = recorded (stamped job id now) (c.set_key s id (stamped job id now))

  abbrev pub sent : S → Job → ℕ → Option String → Result Job × S
  sent s job now none = (err (driver "payload"), s)
  sent s job now (some text) = added job now (c.xadd s (record job { payload = text }))

  -- `marshal` is json.Marshal of the payload, none for an error.
  unfoldable pub enqueue_stream : (String → Option String) → S → Job → ℕ → Result Job × S
  enqueue_stream marshal s job now = sent s job now (marshal job.payload)

  abbrev pub payload_or_empty : Option String → String
  payload_or_empty none = ""
  payload_or_empty (some p) = p

  abbrev pub job_of_message : StreamMessage → ℕ → Job
  job_of_message m now = record {
    id = m.id;
    idempotency_key = m.idempotency_key;
    job_type = m.job_type;
    payload = payload_or_empty m.payload;
    status = running;
    priority = 0;
    attempts = 0;
    max_attempts = 0;
    error = "";
    scheduled_at = none;
    created_at = 0;
    updated_at = now;
  }

  abbrev pub take_message : StreamReply → S → ℕ → Result Job × S
  take_message nil_reply s now = (err no_jobs, s)
  take_message (broken e) s now = (err (driver e), s)
  take_message (messages []) s now = (err no_jobs, s)
  take_message (messages (m ∷ ms)) s now =
      (ok (job_of_message m now), (c.set_key s m.id (job_of_message m now)).1)

  -- The types that the caller asks for are not looked at.
  unfoldable pub dequeue_stream : S → List String → ℕ → Result Job × S
  dequeue_stream s types now = take_message (c.xreadgroup s).0 (c.xreadgroup s).1 now

  abbrev pub job_of_value : StatusValue → Result Job
  job_of_value absent = err job_not_found
  job_of_value (unreadable e) = err (driver e)
  job_of_value (held job) = ok job

  unfoldable pub stream_status : S → ℕ → Result Job
  stream_status s id = job_of_value (c.get_key s id)

  abbrev pub with_job_status : Result Job → S → ℕ → JobStatus → String → ℕ → Result (Unit {0}) × S
  with_job_status (err e) s id status reason now = (err e, s)
  with_job_status (ok job) s id status reason now =
      let written =
        c.set_key s id (record job { status = status; error = reason; updated_at = now }) in
      (unless_error written.0, written.1)

  unfoldable pub update_status : S → ℕ → JobStatus → String → ℕ → Result (Unit {0}) × S
  update_status s id status reason now = with_job_status (stream_status s id) s id status reason now

  abbrev pub then_update : Option String × S → ℕ → JobStatus → ℕ → Result (Unit {0}) × S
  then_update (none, s) id status now = update_status s id status "" now
  then_update (some e, s) id status now = (err (driver e), s)

  unfoldable pub ack_stream : S → ℕ → ℕ → Result (Unit {0}) × S
  ack_stream s id now = then_update (c.xack s id) id succeeded now

  unfoldable pub nack_stream : S → ℕ → String → ℕ → Result (Unit {0}) × S
  nack_stream s id reason now = update_status s id failed reason now

  unfoldable pub heartbeat_stream : S → ℕ → Result (Unit {0}) × S
  heartbeat_stream s id = (unless_error (c.expire_key s id).0, (c.expire_key s id).1)

  unfoldable pub cancel_stream : S → ℕ → ℕ → Result (Unit {0}) × S
  cancel_stream s id now = then_update (c.xdel s id) id cancelled now
