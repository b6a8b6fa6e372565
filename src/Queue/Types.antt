-- ===== src/Queue/Types.antt =====
-- internal/platform/queue/queue.go: the statuses, the job and the errors that the queue
-- implementations share. A time is a number of whole seconds since the epoch, which is what the
-- RFC 3339 texts in the table hold.
use shiori_server.Prelude.{ℕ, Bool, true, false, String, Option}

pub data JobStatus : Type 0 where
  queued running requires_user_action retry_scheduled : JobStatus
  succeeded succeeded_with_warnings failed cancelled : JobStatus

pub data QueueError : Type 0 where
  job_not_found : QueueError
  no_jobs : QueueError
  conflict : QueueError
  no_types : QueueError
  -- any other error of the driver, wrapped
  driver : String → QueueError

-- A value or an error, as the pair that a Go method returns.
pub data Result (A : Type 0) : Type 0 where
  ok : A → Result A
  err : QueueError → Result A

-- `scheduled_at` is none for the zero time. A caller leaves `id` and the times unset.
pub record Job : Type 0 where
  pub id : ℕ
  pub idempotency_key : String
  pub job_type : String
  pub payload : String
  pub status : JobStatus
  pub priority : ℕ
  pub attempts : ℕ
  pub max_attempts : ℕ
  pub error : String
  pub scheduled_at : Option ℕ
  pub created_at : ℕ
  pub updated_at : ℕ

abbrev pub is_queued : JobStatus → Bool
is_queued queued = true
is_queued _ = false

abbrev pub is_running : JobStatus → Bool
is_running running = true
is_running _ = false

abbrev pub is_cancelled : JobStatus → Bool
is_cancelled cancelled = true
is_cancelled _ = false

-- status IN ('queued','running','requires_user_action','retry_scheduled')
abbrev pub is_live : JobStatus → Bool
is_live queued = true
is_live running = true
is_live requires_user_action = true
is_live retry_scheduled = true
is_live _ = false
