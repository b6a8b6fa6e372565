-- ===== src/Extract/Visit.antt =====
-- internal/jobs/extract.go: how the loop of NewExtractHandler opens one page, the challenge that a
-- page may pose included. What the browser and the person answer is given; the calls that the code
-- makes of the browser and of the challenge manager are the result, in order.
use shiori_server.Prelude.{
  ℕ, String, Bool, true, false, not, ◌&&◌, ◌||◌, Option, none, some, List, [], ◌∷◌, if◌then◌else◌,
}
use shiori_server.Challenge.Types.{
  UserActionKind, kind_none, challenge_kind, login, blocked, ChallengeError,
}

-- What the code reads of a browser.Snapshot, and whether its final URL is the login URL
-- (sameLoginLocation).
pub record Snapshot : Type 0 where
  pub user_action : Bool
  pub kind : UserActionKind
  pub at_login : Bool

-- The sessions and snapshots that the browser gives, none for an error; whether the challenge was
-- waited for without an error and the session before it closed without one; and what the browser
-- gives when the page is opened again.
pub record Answers : Type 0 where
  pub session : Option ℕ
  pub snapshot : Option Snapshot
  pub waited : Option ChallengeError
  pub closed : Bool
  pub session' : Option ℕ
  pub snapshot' : Option Snapshot

pub data Action : Type 0 where
  navigated closed_session : ℕ → Action
  created : ℕ → UserActionKind → Action
  waited_for removed : Action

-- The title of the error that ends the job, or the snapshot with the new value of loginConfirmed.
pub data Visit : Type 0 where
  failed : String → Visit
  opened : Snapshot → Bool → Visit

abbrev pub is_blocked : UserActionKind → Bool
is_blocked blocked = true
is_blocked _ = false

abbrev pub is_login : UserActionKind → Bool
is_login login = true
is_login _ = false

abbrev pub kind_or_challenge : UserActionKind → UserActionKind
kind_or_challenge kind_none = challenge_kind
kind_or_challenge k = k

-- The page opened again after a challenge.
unfoldable pub resume : Answers → Bool → Visit × List Action
resume a confirmed = elim a.session' [
  | none ↦ (failed "Browser Error", [])
  | some s' ↦ elim a.snapshot' [
    | none ↦ (failed "Browser Error", navigated s' ∷ closed_session s' ∷ [])
    | some snap ↦
        if snap.user_action
        then (failed "Human Action Failed", navigated s' ∷ closed_session s' ∷ [])
        else (opened snap confirmed, navigated s' ∷ closed_session s' ∷ [])
  ]
]

-- The challenge for a person on the session `s`.
unfoldable pub hand_over : Answers → ℕ → UserActionKind → Bool → Visit × List Action
unfolding resume
hand_over a s kind confirmed =
    let action = kind_or_challenge kind in
    let asked = created s action ∷ waited_for ∷ removed ∷ closed_session s ∷ [] in
    let again = resume a (is_login action || confirmed) in
    elim a.waited [
      | some e ↦ (failed "Challenge Failed", asked)
      | none ↦
          if a.closed
          then (again.0, created s action ∷ waited_for ∷ removed ∷ closed_session s ∷ again.1)
          else (failed "Browser Error", asked)
    ]

-- An explicit login page counts as a login that a person has to make.
abbrev pub seen_as : Bool → Bool → Snapshot → Snapshot
seen_as login_phase confirmed snap =
    if login_phase && not confirmed && not snap.user_action && snap.at_login
    then record snap { user_action = true; kind = login }
    else snap

-- From Navigate to the close of the session that the snapshot came from.
unfoldable pub visit : Bool → Bool → Answers → Visit × List Action
unfolding hand_over
visit login_phase confirmed a = elim a.session [
  | none ↦ (failed "Browser Error", [])
  | some s ↦ elim a.snapshot [
    | none ↦ (failed "Browser Error", navigated s ∷ closed_session s ∷ [])
    | some first ↦
        let snap = seen_as login_phase confirmed first in
        let asked = hand_over a s snap.kind confirmed in
        if not snap.user_action
        then (opened snap confirmed, navigated s ∷ closed_session s ∷ [])
        else if is_blocked snap.kind
        then (failed "Source Blocked", navigated s ∷ closed_session s ∷ [])
        else (asked.0, navigated s ∷ asked.1)
  ]
]
