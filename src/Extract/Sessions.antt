-- ===== src/Extract/Sessions.antt =====
-- internal/jobs/extract.go: what a visit of a page leaves behind, on every path.
use shiori_server.Prelude.{
  ℕ, suc, ◌-◌, ◌≡◌, Bool, true, false, ◌&&◌, ◌||◌, none, List, [], ◌∷◌, arith, ◌==◌, if◌then◌else◌,
}
use shiori_server.Extract.Visit.{
  Snapshot, Answers, Action, navigated, closed_session, created, waited_for, removed, opened,
  resume, hand_over, visit,
}

abbrev pub without : ℕ → List ℕ → List ℕ
without s [] = []
without s (x ∷ xs) = let rest = without s xs in if x == s then rest else x ∷ rest

abbrev one_of : ℕ → List ℕ → Bool
one_of s [] = false
one_of s (x ∷ xs) = x == s || one_of s xs

-- The sessions that are open after some calls.
abbrev pub open_after : List ℕ → List Action → List ℕ
open_after o [] = o
open_after o (navigated s ∷ rest) = open_after (s ∷ o) rest
open_after o (closed_session s ∷ rest) = open_after (without s o) rest
open_after o (created s k ∷ rest) = open_after o rest
open_after o (waited_for ∷ rest) = open_after o rest
open_after o (removed ∷ rest) = open_after o rest

-- The challenges that are in the manager after some calls.
abbrev pub pending_after : ℕ → List Action → ℕ
pending_after n [] = n
pending_after n (navigated s ∷ rest) = pending_after n rest
pending_after n (closed_session s ∷ rest) = pending_after n rest
pending_after n (created s k ∷ rest) = pending_after (suc n) rest
pending_after n (waited_for ∷ rest) = pending_after n rest
pending_after n (removed ∷ rest) = pending_after (n - 1) rest

-- A challenge is created on an open session only.
abbrev pub on_open : List ℕ → List Action → Bool
on_open o [] = true
on_open o (navigated s ∷ rest) = on_open (s ∷ o) rest
on_open o (closed_session s ∷ rest) = on_open (without s o) rest
on_open o (created s k ∷ rest) = one_of s o && on_open o rest
on_open o (waited_for ∷ rest) = on_open o rest
on_open o (removed ∷ rest) = on_open o rest

-- A visit leaves nothing behind, whatever the browser and the person answer, errors included: every
-- session that it opened is closed, every challenge that it created is removed, and a challenge is
-- created only on a session that is open.
pub visit_clean :
    (login_phase confirmed : Bool) (a : Answers)
    → (open_after [] (visit login_phase confirmed a).1 ≡ [])
      × (pending_after 0 (visit login_phase confirmed a).1 ≡ 0)
      × (on_open [] (visit login_phase confirmed a).1 ≡ true)
unfolding visit hand_over resume
visit_clean login_phase confirmed a = ground arith

-- Some challenge is posed.
abbrev pub poses : List Action → Bool
poses [] = false
poses (created s k ∷ rest) = true
poses (navigated s ∷ rest) = poses rest
poses (closed_session s ∷ rest) = poses rest
poses (waited_for ∷ rest) = poses rest
poses (removed ∷ rest) = poses rest

-- A page is extracted only without a challenge: the snapshot that a visit hands on asks for no
-- person, and where the visit posed a challenge, the wait for it ended without an error and so did
-- the close that keeps the cookies.
pub opened_without_action :
    (login_phase confirmed confirmed' : Bool) (a : Answers) (snap : Snapshot)
    → (visit login_phase confirmed a).0 ≡ opened snap confirmed'
    → (snap.user_action ≡ false)
      × (poses (visit login_phase confirmed a).1 ≡ true → (a.waited ≡ none) × (a.closed ≡ true))
unfolding visit hand_over resume
opened_without_action login_phase confirmed confirmed' a snap h = (ground arith, λ p. ground arith)
