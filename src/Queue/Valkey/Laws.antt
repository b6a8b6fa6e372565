-- ===== src/Queue/Valkey/Laws.antt =====
-- internal/platform/queue/valkeyqueue/queue.go: what a caller of the stream queue sees of its jobs,
-- over the status keys.
use mathlib.Core.Path.{fun_ext, subst}
use shiori_server.Prelude.{
  ℕ, ◌≡◌, refl, sym, ◌∙◌, String, Option, none, some, List, [], ◌∷◌, ◌⊎◌, inl, inr,
}
use shiori_server.Queue.Types.{JobStatus, succeeded, failed, cancelled, Job, Result, ok, err}
use shiori_server.Queue.Valkey.{
  StreamReply, nil_reply, broken, messages, StatusValue, absent, unreadable, held, Client,
  unless_error, stamped, recorded, added, sent, enqueue_stream, job_of_message, take_message,
  dequeue_stream, job_of_value, stream_status, with_job_status, update_status, then_update,
  ack_stream, nack_stream, heartbeat_stream, cancel_stream,
}
use shiori_server.Queue.Valkey.Calls.{
  write, View, Laws, Call, enqueues, dequeues, acks, nacks, beats, cancels, passes, of_job, of_unit,
  change, Settles, Effect, Follows, reply_to, history,
}

module _ {S : Type 0} (c : Client S) (elapse : ℕ → S → S) (marshal : String → Option String)
    (laws : Laws c elapse) where
  -- What the laws say of the answer to a SET.
  abbrev HasSet : View → ℕ → Job → Option String × S → Type 0
  HasSet view i job (none, s) = c.get_key s ≡ write view i job
  HasSet view i job (some e, s) = (c.get_key s ≡ view) ⊎ (c.get_key s ≡ write view i job)

  set_key-HasSet : (s : S) (i : ℕ) (job : Job) → HasSet (c.get_key s) i job (c.set_key s i job)
  set_key-HasSet s i job =
      go (c.set_key s i job) (λ e. fun_ext (λ j. laws.set_done s i job j e))
        (λ e q. both (c.set_key s i job).1 (laws.set_failed s i job e q))
    where
      both :
          (t : S)
          → ((j : ℕ) → c.get_key t j ≡ c.get_key s j)
            ⊎ ((j : ℕ) → c.get_key t j ≡ write (c.get_key s) i job j)
          → (c.get_key t ≡ c.get_key s) ⊎ (c.get_key t ≡ write (c.get_key s) i job)
      both t (inl h) = inl (fun_ext h)
      both t (inr h) = inr (fun_ext h)

      go :
          (q : Option String × S)
          → (q.0 ≡ none → c.get_key q.1 ≡ write (c.get_key s) i job)
          → ((e : String)
              → q.0 ≡ some e
              → (c.get_key q.1 ≡ c.get_key s) ⊎ (c.get_key q.1 ≡ write (c.get_key s) i job))
          → HasSet (c.get_key s) i job q
      go (none, t) h k = h refl
      go (some e, t) h k = k e refl

  recorded-Effect :
      (job : Job) (i now : ℕ) (view : View) (q : Option String × S)
      → HasSet view i (stamped c job i now) q
      → Effect
          (enqueues job now)
          (of_job (recorded c (stamped c job i now) q).0)
          view
          (c.get_key (recorded c (stamped c job i now) q).1)
  recorded-Effect job i now view (none, s) h = h
  recorded-Effect job i now view (some e, s) (inl h) = inl h
  recorded-Effect job i now view (some e, s) (inr h) = inr (i, h)

  added-Effect :
      (job : Job) (now : ℕ) (view : View) (q : Result ℕ × S)
      → c.get_key q.1 ≡ view
      → Effect
          (enqueues job now)
          (of_job (added c job now q).0)
          view
          (c.get_key (added c job now q).1)
  added-Effect job now view (err e, s) h = inl h
  added-Effect job now view (ok i, s) h =
      recorded-Effect job i now view (c.set_key s i (stamped c job i now)) (
        subst (λ v. HasSet v i (stamped c job i now) (c.set_key s i (stamped c job i now))) h
          (set_key-HasSet s i (stamped c job i now)))

  take_message-Effect :
      (types : List String) (now : ℕ) (view : View) (r : StreamReply) (s : S)
      → c.get_key s ≡ view
      → Effect
          (dequeues types now)
          (of_job (take_message c r s now).0)
          view
          (c.get_key (take_message c r s now).1)
  take_message-Effect types now view nil_reply s h = h
  take_message-Effect types now view (broken e) s h = h
  take_message-Effect types now view (messages []) s h = h
  take_message-Effect types now view (messages (m ∷ ms)) s h =
      go (c.set_key s m.id (job_of_message c m now)) (
        subst
          (λ v. HasSet v m.id (job_of_message c m now) (c.set_key s m.id (job_of_message c m now)))
          h (set_key-HasSet s m.id (job_of_message c m now)))
    where
      go :
          (q : Option String × S)
          → HasSet view m.id (job_of_message c m now) q
          → (c.get_key q.1 ≡ view) ⊎ (c.get_key q.1 ≡ write view m.id (job_of_message c m now))
      go (none, t) k = inr k
      go (some e, t) k = k

  update_status-Settles :
      (s : S) (i : ℕ) (status : JobStatus) (reason : String) (now : ℕ)
      → Settles
          (of_unit (update_status c s i status reason now).0)
          i
          status
          reason
          now
          (c.get_key s)
          (c.get_key (update_status c s i status reason now).1)
  unfolding update_status stream_status
  update_status-Settles s i status reason now = go (c.get_key s i) refl
    where
      after_set :
          (job : Job) (q : Option String × S)
          → change (c.get_key s) i status reason now ≡ write (c.get_key s) i job
          → HasSet (c.get_key s) i job q
          → Settles (of_unit (unless_error q.0)) i status reason now (c.get_key s) (c.get_key q.1)
      after_set job (none, t) e h = h ∙ sym e
      after_set job (some x, t) e (inl h) = inl h
      after_set job (some x, t) e (inr h) = inr (h ∙ sym e)

      go :
          (v : StatusValue)
          → c.get_key s i ≡ v
          → Settles
              (of_unit (with_job_status c (job_of_value c v) s i status reason now).0)
              i
              status
              reason
              now
              (c.get_key s)
              (c.get_key (with_job_status c (job_of_value c v) s i status reason now).1)
      go absent e = inl refl
      go (unreadable m) e = inl refl
      go (held job) e =
          let job' = record job { status = status; error = reason; updated_at = now } in
          after_set job' (c.set_key s i job') (rw (change, e) refl) (set_key-HasSet s i job')

  then_update-Settles :
      (q : Option String × S) (i : ℕ) (status : JobStatus) (now : ℕ) (view : View)
      → c.get_key q.1 ≡ view
      → Settles
          (of_unit (then_update c q i status now).0)
          i
          status
          ""
          now
          view
          (c.get_key (then_update c q i status now).1)
  then_update-Settles (some e, s) i status now view h = inl h
  then_update-Settles (none, s) i status now view h =
      subst
        (λ v.
          Settles (of_unit (update_status c s i status "" now).0) i status "" now v
            (c.get_key (update_status c s i status "" now).1))
        h (update_status-Settles s i status "" now)

  reply_to-Effect :
      (s : S) (k : Call)
      → Effect k
          (reply_to c elapse marshal s k).0
          (c.get_key s)
          (c.get_key (reply_to c elapse marshal s k).1)
  unfolding enqueue_stream dequeue_stream ack_stream nack_stream heartbeat_stream cancel_stream
  reply_to-Effect s (enqueues job now) = go (marshal job.payload)
    where
      go :
          (o : Option String)
          → Effect
              (enqueues job now)
              (of_job (sent c s job now o).0)
              (c.get_key s)
              (c.get_key (sent c s job now o).1)
      go none = inl refl
      go (some text) =
          added-Effect job now (c.get_key s) (c.xadd s (record job { payload = text }))
            (fun_ext (laws.get_xadd s (record job { payload = text })))
  reply_to-Effect s (dequeues types now) =
      take_message-Effect types now (c.get_key s) (c.xreadgroup s).0 (c.xreadgroup s).1
        (fun_ext (laws.get_xreadgroup s))
  reply_to-Effect s (acks i now) =
      then_update-Settles (c.xack s i) i succeeded now (c.get_key s) (fun_ext (laws.get_xack s i))
  reply_to-Effect s (nacks i reason now) = update_status-Settles s i failed reason now
  reply_to-Effect s (beats i) = fun_ext (laws.get_expire s i)
  reply_to-Effect s (cancels i now) =
      then_update-Settles (c.xdel s i) i cancelled now (c.get_key s) (fun_ext (laws.get_xdel s i))
  reply_to-Effect s (passes n) = laws.get_elapse n s

  -- What callers see under the status keys is a map from IDs to jobs that their calls change and that
  -- loses keys as time passes: over any sequence of enqueues, dequeues, acks, nacks, heartbeats,
  -- cancels and waits, each call does to the map what its reply says. An enqueue, ack, nack or cancel
  -- that is accepted has made its change, one that is refused has made it or none; a dequeue that is
  -- refused and any heartbeat change nothing; one that gives a job may have lost the change, as the
  -- error of its SET is dropped. A SET that is answered writes its key and no other, one that fails
  -- writes its key or nothing, and the other commands write no status key.
  pub history-Follows :
      (s : S) (calls : List Call)
      → Follows
          (history c elapse marshal s calls).0
          (c.get_key s)
          (c.get_key (history c elapse marshal s calls).1)
  history-Follows s [] = refl
  history-Follows s (k ∷ ks) = (
    c.get_key (reply_to c elapse marshal s k).1,
    reply_to-Effect s k,
    history-Follows (reply_to c elapse marshal s k).1 ks,
  )
