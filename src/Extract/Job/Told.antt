-- ===== src/Extract/Job/Told.antt =====
-- internal/jobs/extract.go: what the subscribers of a job are told, and what the worker is.
use shiori_server.Prelude.{
  ℕ, zero, suc, ◌≡◌, refl, String, Bool, true, false, not, ◌&&◌, Option, none, some, List, [], ◌∷◌,
  ◌++◌, map, arith, str_eq, eq_refl, All, Bool-cases, inl, inr,
}
use mathlib.Core.Option
use shiori_server.Challenge.Types.{ChallengeError}
use shiori_server.Extract.Merge.{Object, dedup_all}
use shiori_server.Extract.Visit.{
  Snapshot, Answers, Visit, failed, opened, is_blocked, seen_as, visit,
}
use shiori_server.Extract.Job.{
  JobEvent, progress, posed, error_sent, cancel_sent, done_sent, Report, message, inference,
  reported, PageTurn, Loop, Turned, stopped, again, finished, after_wait, after_snapshot,
  visit_events, images_told, unit_events, import_events, read_page, page_turn, Run, send_error,
  continue, run_loop, Start, undecodable, refused, accepted, first_loop, handle_extract,
}
use shiori_server.Extract.Job.Persist.{
  UnitImport, not_opened, not_read, taken, Saving, is_stored, type_for, store_answer, store_decoded,
  persist,
}

abbrev pub is_last : JobEvent → Bool
is_last (progress step) = false
is_last (posed k) = false
is_last (error_sent title) = true
is_last cancel_sent = true
is_last (done_sent r) = true

-- The event that ends the stream of a job against the error that the handler returns: a
-- cancellation, the title of the error that was sent, and nil for a saved medium and nothing else.
abbrev pub matches : JobEvent → Option String → Bool
matches (progress step) returned = false
matches (posed k) returned = false
matches (error_sent title) none = false
matches (error_sent title) (some e) = str_eq e title
matches cancel_sent none = false
matches cancel_sent (some e) = str_eq e "context canceled"
matches (done_sent r) none = r.saved
matches (done_sent r) (some e) = not r.saved

-- The last event ends the stream and no other does, and it matches what is returned.
abbrev pub told : List JobEvent → Option String → Bool
told [] returned = false
told (e ∷ []) returned = is_last e && matches e returned
told (e ∷ e' ∷ es) returned = not (is_last e) && told (e' ∷ es) returned

abbrev pub Quiet : List JobEvent → Type 0
Quiet = All (λ e. is_last e ≡ false)

pub Quiet-append : (xs ys : List JobEvent) → Quiet xs → Quiet ys → Quiet (xs ++ ys)
Quiet-append [] ys h k = k
Quiet-append (x ∷ xs) ys h k = (h.0, Quiet-append xs ys h.1 k)

told-step :
    (e : JobEvent) (es : List JobEvent) (returned : Option String)
    → is_last e ≡ false
    → told es returned ≡ true
    → told (e ∷ es) returned ≡ true
told-step e [] returned h k = cc k
told-step e (e' ∷ es) returned h k = ground (arith, h, k)

told-append :
    (xs ys : List JobEvent) (returned : Option String)
    → Quiet xs
    → told ys returned ≡ true
    → told (xs ++ ys) returned ≡ true
told-append [] ys returned h k = k
told-append (x ∷ xs) ys returned h k =
    told-step x (xs ++ ys) returned h.0 (told-append xs ys returned h.1 k)

reported-Quiet : (rs : List Report) → Quiet (map reported rs)
reported-Quiet [] = tt
reported-Quiet (message ∷ rs) = (refl, reported-Quiet rs)
reported-Quiet (inference ∷ rs) = (refl, reported-Quiet rs)

after_wait-Quiet : (o : Option ChallengeError) (closed : Bool) → Quiet (after_wait o closed)
after_wait-Quiet (some e) closed = tt
after_wait-Quiet none true = (refl, tt)
after_wait-Quiet none false = tt

after_snapshot-Quiet : (a : Answers) (o : Option Snapshot) → Quiet (after_snapshot a o)
after_snapshot-Quiet a none = tt
after_snapshot-Quiet a (some snap) = elim (Bool-cases (not snap.user_action)) [
  | inl e ↦ rw e tt
  | inr e ↦ elim (Bool-cases (is_blocked snap.kind)) [
    | inl b ↦ rw (e, b) tt
    | inr b ↦ rw (e, b) (refl, after_wait-Quiet a.waited a.closed)
  ]
]

pub visit_events-Quiet :
    (login_phase confirmed : Bool) (a : Answers) → Quiet (visit_events login_phase confirmed a)
unfolding visit_events
visit_events-Quiet login_phase confirmed a =
    go a.session (Option.map (seen_as login_phase confirmed) a.snapshot)
  where
    go :
        (o : Option ℕ) (q : Option Snapshot)
        → Quiet (
            progress "navigating"
            ∷ elim o [ none ↦ [] | some s ↦ progress "snapshot" ∷ after_snapshot a q ])
    go none q = (refl, tt)
    go (some s) q = (refl, (refl, after_snapshot-Quiet a q))

pub read_page-Quiet :
    (url : List ℕ) (t : PageTurn) (st : Loop) (v : Visit) → Quiet (read_page url t st v).1
read_page-Quiet url t st (failed title) = tt
read_page-Quiet url t st (opened snap confirmed) = elim (Bool-cases st.login_phase) [
  | inl e ↦ rw e (refl, tt)
  | inr e ↦ rw e (refl, (refl, (refl, reported-Quiet t.reports)))
]

images_told-Quiet : (n : ℕ) → Quiet (images_told n)
images_told-Quiet zero = tt
images_told-Quiet (suc n) = (refl, images_told-Quiet n)

unit_events-Quiet : (u : UnitImport) → Quiet (unit_events u)
unit_events-Quiet (not_opened warning) = (refl, tt)
unit_events-Quiet (not_read session warning) = (refl, tt)
unit_events-Quiet (taken session images warnings) = (refl, images_told-Quiet images)

pub import_events-Quiet : (us : List UnitImport) → Quiet (import_events us)
unfolding import_events
import_events-Quiet [] = tt
import_events-Quiet (u ∷ us) =
    Quiet-append (unit_events u) (import_events us) (unit_events-Quiet u) (import_events-Quiet us)

store_answer-matches :
    (s : Saving) (result : Object) (p : Option String × String)
    → matches (done_sent (store_answer s result p).0) (store_answer s result p).1 ≡ true
store_answer-matches s result (none, error) = refl
store_answer-matches s result (some id, error) = refl

persist-matches :
    (s : Saving) (result : Object)
    → matches (done_sent (persist s result).0) (persist s result).1 ≡ true
unfolding persist
persist-matches s result = elim (Bool-cases (is_stored s.target)) [
  | inl e ↦ rw e (go (s.media_type result))
  | inr e ↦ rw e refl
]
  where
    go :
        (o : Option String)
        → matches (done_sent (store_decoded s result o).0) (store_decoded s result o).1 ≡ true
    go none = refl
    go (some media_type) =
        store_answer-matches s result (s.store (type_for s.target media_type) result)

send_error-told :
    (cancelled : Bool) (title : String)
    → told (send_error cancelled title).events (send_error cancelled title).returned ≡ true
send_error-told true title = refl
send_error-told false title = eq_refl title

continue-told :
    (saving : Saving) (cancelled : Bool) (next : Loop → Run) (t : Turned)
    → ((st : Loop) → (next st).ran ≡ true → told (next st).events (next st).returned ≡ true)
    → (continue saving cancelled next t).ran ≡ true
    → told (continue saving cancelled next t).events (continue saving cancelled next t).returned
      ≡ true
continue-told saving cancelled next (stopped title) h k = send_error-told cancelled title
continue-told saving cancelled next (again st) h k = h st k
continue-told saving cancelled next (finished merged) h k =
    let units = (persist saving (dedup_all merged)).2 in
    told-append (progress "saving" ∷ import_events units) _ (persist saving (dedup_all merged)).1
      (refl, import_events-Quiet units) (persist-matches saving (dedup_all merged))

pub run_loop-told :
    (fuel : ℕ) (url : List ℕ) (world : ℕ → PageTurn) (saving : Saving) (i : ℕ) (st : Loop)
    → (run_loop fuel url world saving i st).ran ≡ true
    → told
        (run_loop fuel url world saving i st).events
        (run_loop fuel url world saving i st).returned
      ≡ true
unfolding run_loop page_turn
run_loop-told zero url world saving i st h = cc h
run_loop-told (suc fuel) url world saving i st h =
    told-append (page_turn url (world i) st).2 _ _
      (Quiet-append (visit_events st.login_phase st.confirmed (world i).answers) _
        (visit_events-Quiet st.login_phase st.confirmed (world i).answers)
        (read_page-Quiet url (world i) st (visit st.login_phase st.confirmed (world i).answers).0))
      (continue-told saving (world i).cancelled (run_loop fuel url world saving (suc i))
        (page_turn url (world i) st).0 (run_loop-told fuel url world saving (suc i)) h)

pub handle_extract-told :
    (fuel : ℕ) (start : Start) (cancelled : Bool) (world : ℕ → PageTurn) (saving : Saving)
    → (handle_extract fuel start cancelled world saving).ran ≡ true
    → told
        (handle_extract fuel start cancelled world saving).events
        (handle_extract fuel start cancelled world saving).returned
      ≡ true
unfolding handle_extract
handle_extract-told fuel undecodable cancelled world saving h =
    send_error-told cancelled "Invalid Payload"
handle_extract-told fuel refused cancelled world saving h =
    send_error-told cancelled "Invalid Request"
handle_extract-told fuel (accepted url login) cancelled world saving h =
    run_loop-told fuel url world saving 0 (first_loop url login) h
