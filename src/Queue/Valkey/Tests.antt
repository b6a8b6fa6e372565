-- ===== src/Queue/Valkey/Tests.antt =====
-- A small server, and a job that goes through the stream queue.
use shiori_server.Prelude.{
  ℕ, suc, ◌≡◌, refl, Option, none, some, List, [], ◌∷◌, ◌++◌, if◌then◌else◌, ◌==◌, ltb, Bool-cases,
  inl, inr,
}
use shiori_server.Queue.Types.{JobStatus, queued, succeeded, Job, Result, ok, err}
use shiori_server.Queue.Valkey.{
  StreamMessage, StreamReply, nil_reply, messages, StatusValue, absent, Client, enqueue_stream,
  dequeue_stream, update_status, stream_status, ack_stream, cancel_stream,
}
use shiori_server.Queue.Valkey.Calls.{
  write, Laws, Call, enqueues, dequeues, acks, cancels, passes, Follows, history,
}
use shiori_server.Queue.Valkey.Laws.{history-Follows}

-- The number of messages so far, those that no consumer has read, and the values of the keys.
record Server : Type 0 where
  next : ℕ
  unread : List StreamMessage
  keys : ℕ → StatusValue

abbrev message_of : ℕ → Job → StreamMessage
message_of id job = record {
  id = id;
  idempotency_key = job.idempotency_key;
  job_type = job.job_type;
  payload = some job.payload;
}

abbrev first_unread : List StreamMessage → StreamReply
first_unread [] = nil_reply
first_unread (m ∷ ms) = messages (m ∷ [])

abbrev after_first : List StreamMessage → List StreamMessage
after_first [] = []
after_first (m ∷ ms) = ms

abbrev without_message : ℕ → List StreamMessage → List StreamMessage
without_message i [] = []
without_message i (m ∷ ms) = let rest = without_message i ms in if m.id == i then rest else m ∷ rest

abbrev small : Client Server
small = record {
  xgroup_create = λ s. (none, s);
  xadd = λ s job.
      (ok s.next, record s { next = suc s.next; unread = s.unread ++ message_of s.next job ∷ [] });
  xreadgroup = λ s. (first_unread s.unread, record s { unread = after_first s.unread });
  xack = λ s i. (none, s);
  xdel = λ s i. (none, record s { unread = without_message i s.unread });
  set_key = λ s i job. (none, record s { keys = write s.keys i job });
  get_key = λ s i. s.keys i;
  expire_key = λ s i. (none, s);
}

-- Every key expires in a week.
abbrev expire : ℕ → Server → Server
expire n s = if ltb n 604800 then s else record s { keys = λ i. absent }

abbrev small_laws : Laws small expire
small_laws = record {
  set_done = λ s i job j e. refl;
  set_failed = λ s i job e q. cc q;
  get_elapse = λ n s j. elim (Bool-cases (ltb n 604800)) [
    | inl e ↦ rw e (inl refl)
    | inr e ↦ rw e (inr refl)
  ];
  get_xadd = λ s job j. refl;
  get_xreadgroup = λ s j. refl;
  get_xack = λ s i j. refl;
  get_xdel = λ s i j. refl;
  get_expire = λ s i j. refl;
}

abbrev empty_server : Server
empty_server = record { next = 1; unread = []; keys = λ i. absent }

abbrev new_job : Job
new_job = record {
  id = 0;
  idempotency_key = "k";
  job_type = "extract";
  payload = "{}";
  status = queued;
  priority = 5;
  attempts = 0;
  max_attempts = 3;
  error = "";
  scheduled_at = none;
  created_at = 0;
  updated_at = 0;
}

-- A worker runs a job of a type that it did not ask for, a person cancels it, and the worker acks.
abbrev calls : List Call
calls = enqueues new_job 10 ∷ dequeues ("import" ∷ []) 11 ∷ cancels 1 12 ∷ acks 1 13 ∷ passes 5 ∷ []

history-Follows_example :
    Follows
      (history small expire some empty_server calls).0
      (small.get_key empty_server)
      (small.get_key (history small expire some empty_server calls).1)
history-Follows_example = history-Follows small expire some small_laws empty_server calls

abbrev status_of : Result Job → Option JobStatus
status_of (ok job) = some job.status
status_of (err e) = none

-- The cancelled job has succeeded.
ends_succeeded :
    status_of (stream_status small (history small expire some empty_server calls).1 1)
    ≡ some succeeded
unfolding enqueue_stream dequeue_stream update_status stream_status ack_stream cancel_stream
ends_succeeded = refl
