-- ===== src/Extract/Job/Trace.antt =====
-- internal/jobs/extract.go: the browser's sessions and the challenges over a whole job.
use shiori_server.Prelude.{
  ℕ, zero, suc, ◌-◌, ◌≡◌, refl, Bool, true, false, ◌&&◌, List, [], ◌∷◌, ◌++◌, arith,
}
use shiori_server.Extract.Visit.{
  Action, navigated, closed_session, created, waited_for, removed, visit,
}
use shiori_server.Extract.Sessions.{without, open_after, pending_after, on_open, visit_clean}
use shiori_server.Extract.Job.{
  PageTurn, Loop, Turned, stopped, again, finished, page_turn, Run, send_error, continue, run_loop,
  Start, undecodable, refused, accepted, first_loop, handle_extract,
}
use shiori_server.Extract.Merge.{dedup_all}
use shiori_server.Extract.Job.Persist.{
  UnitImport, not_opened, not_read, taken, unit_actions, import_actions, Saving, persist,
}

open_after-append :
    (o : List ℕ) (xs ys : List Action) → open_after o (xs ++ ys) ≡ open_after (open_after o xs) ys
open_after-append o [] ys = refl
open_after-append o (navigated s ∷ xs) ys = open_after-append (s ∷ o) xs ys
open_after-append o (closed_session s ∷ xs) ys = open_after-append (without s o) xs ys
open_after-append o (created s k ∷ xs) ys = open_after-append o xs ys
open_after-append o (waited_for ∷ xs) ys = open_after-append o xs ys
open_after-append o (removed ∷ xs) ys = open_after-append o xs ys

pending_after-append :
    (n : ℕ) (xs ys : List Action)
    → pending_after n (xs ++ ys) ≡ pending_after (pending_after n xs) ys
pending_after-append n [] ys = refl
pending_after-append n (navigated s ∷ xs) ys = pending_after-append n xs ys
pending_after-append n (closed_session s ∷ xs) ys = pending_after-append n xs ys
pending_after-append n (created s k ∷ xs) ys = pending_after-append (suc n) xs ys
pending_after-append n (waited_for ∷ xs) ys = pending_after-append n xs ys
pending_after-append n (removed ∷ xs) ys = pending_after-append (n - 1) xs ys

on_open-append :
    (o : List ℕ) (xs ys : List Action)
    → on_open o (xs ++ ys) ≡ (on_open o xs && on_open (open_after o xs) ys)
on_open-append o [] ys = refl
on_open-append o (navigated s ∷ xs) ys = on_open-append (s ∷ o) xs ys
on_open-append o (closed_session s ∷ xs) ys = on_open-append (without s o) xs ys
on_open-append o (created s k ∷ xs) ys = ground (arith, on_open-append o xs ys)
on_open-append o (waited_for ∷ xs) ys = on_open-append o xs ys
on_open-append o (removed ∷ xs) ys = on_open-append o xs ys

-- Every session that the calls open is closed, every challenge that they create is removed, and
-- each was created on an open session.
abbrev pub IsClean : List Action → Type 0
IsClean xs = (open_after [] xs ≡ []) × (pending_after 0 xs ≡ 0) × (on_open [] xs ≡ true)

append-IsClean : (xs ys : List Action) → IsClean xs → IsClean ys → IsClean (xs ++ ys)
append-IsClean xs ys h k = (
  rw (open_after-append [] xs ys, h.0) k.0,
  rw (pending_after-append 0 xs ys, h.1) k.1,
  rw (on_open-append [] xs ys, h.2, h.0) k.2,
)

session-IsClean : (s : ℕ) → IsClean (navigated s ∷ closed_session s ∷ [])
session-IsClean s = (ground arith, refl, refl)

unit_actions-IsClean : (u : UnitImport) → IsClean (unit_actions u)
unit_actions-IsClean (not_opened warning) = (refl, refl, refl)
unit_actions-IsClean (not_read session warning) = session-IsClean session
unit_actions-IsClean (taken session images warnings) = session-IsClean session

import_actions-IsClean : (us : List UnitImport) → IsClean (import_actions us)
unfolding import_actions
import_actions-IsClean [] = (refl, refl, refl)
import_actions-IsClean (u ∷ us) =
    append-IsClean (unit_actions u) (import_actions us) (unit_actions-IsClean u)
      (import_actions-IsClean us)

send_error-IsClean : (cancelled : Bool) (title : _) → IsClean (send_error cancelled title).actions
send_error-IsClean true title = (refl, refl, refl)
send_error-IsClean false title = (refl, refl, refl)

continue-IsClean :
    (saving : Saving) (cancelled : Bool) (next : Loop → Run) (t : Turned)
    → ((st : Loop) → IsClean (next st).actions)
    → IsClean (continue saving cancelled next t).actions
continue-IsClean saving cancelled next (stopped title) h = send_error-IsClean cancelled title
continue-IsClean saving cancelled next (again st) h = h st
continue-IsClean saving cancelled next (finished merged) h =
    import_actions-IsClean (persist saving (dedup_all merged)).2

run_loop-IsClean :
    (fuel : ℕ) (url : List ℕ) (world : ℕ → PageTurn) (saving : Saving) (i : ℕ) (st : Loop)
    → IsClean (run_loop fuel url world saving i st).actions
unfolding run_loop page_turn
run_loop-IsClean zero url world saving i st = (refl, refl, refl)
run_loop-IsClean (suc fuel) url world saving i st =
    append-IsClean (visit st.login_phase st.confirmed (world i).answers).1 _
      (visit_clean st.login_phase st.confirmed (world i).answers)
      (continue-IsClean saving (world i).cancelled (run_loop fuel url world saving (suc i))
        (page_turn url (world i) st).0 (run_loop-IsClean fuel url world saving (suc i)))

-- A job leaves nothing behind, whatever the pages, the browser, the person, the model and the
-- repository answer and however it ends: every browser session that it opened, for a page or for the
-- import of a chapter, is closed, every challenge that it posed is removed, and each was posed on a
-- session that was open.
pub handle_extract-IsClean :
    (fuel : ℕ) (start : Start) (cancelled : Bool) (world : ℕ → PageTurn) (saving : Saving)
    → IsClean (handle_extract fuel start cancelled world saving).actions
unfolding handle_extract
handle_extract-IsClean fuel undecodable cancelled world saving =
    send_error-IsClean cancelled "Invalid Payload"
handle_extract-IsClean fuel refused cancelled world saving =
    send_error-IsClean cancelled "Invalid Request"
handle_extract-IsClean fuel (accepted url login) cancelled world saving =
    run_loop-IsClean fuel url world saving 0 (first_loop url login)
