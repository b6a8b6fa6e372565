-- ===== src/Browser/Sessions.antt =====
-- internal/platform/browser/chromedp/provider.go: the sessions of the browser and the leases of the
-- domain profiles. A call of Navigate for a login is two steps, since other calls run between them:
-- it takes the lease, and it ends with an error or with a session. A session is named by its number,
-- which uuid.New gives anew each time; what FlareSolverr and Chromium answer decides between the
-- steps.
pub mod Leases
use shiori_server.Prelude.{
  ℕ, suc, String, Bool, true, false, ◌||◌, Option, none, some, List, [], ◌∷◌, ◌==◌, str_eq,
  if◌then◌else◌,
}

-- What of a session decides how it is closed: its profile, and whether it is a Chromium that holds
-- the profile's lease. One of FlareSolverr has no context and nothing to release.
pub record BrowserSession : Type 0 where
  pub id : ℕ
  pub profile : String
  pub chromium : Bool

-- `held` has the keys whose channel is full; `navigating` the calls of Navigate that hold a lease and
-- have no session yet.
pub record Browser : Type 0 where
  pub next : ℕ
  pub held : List String
  pub navigating : List BrowserSession
  pub sessions : List BrowserSession

abbrev pub no_sessions : Browser
no_sessions = record { next = 0; held = []; navigating = []; sessions = [] }

abbrev pub is_held : String → List String → Bool
is_held k [] = false
is_held k (j ∷ js) = str_eq j k || is_held k js

-- acquireProfile: none while the lease is taken, where the call waits.
unfoldable pub acquire_profile : String → Browser → Option Browser
acquire_profile key b = if is_held key b.held then none else some (record b { held = key ∷ b.held })

abbrev pub release_profile : String → List String → List String
release_profile k [] = []
release_profile k (j ∷ js) =
    let rest = release_profile k js in if str_eq j k then rest else j ∷ rest

-- The session with the ID, and the others.
unfoldable pub take_session :
    ℕ → List BrowserSession → Option (BrowserSession × List BrowserSession)
take_session i [] = none
take_session i (s ∷ ss) =
    if s.id == i
    then some (s, ss)
    else elim (take_session i ss) [ none ↦ none | some (found, rest) ↦ some (found, s ∷ rest) ]

abbrev pub started : String → Browser → Option Browser → Browser
started key b none = b
started key b (some taken) = record taken {
  next = suc b.next;
  navigating = record { id = b.next; profile = key; chromium = true } ∷ b.navigating;
}

-- Navigate for a login, up to the lease.
unfoldable pub begin_navigate : String → Browser → Browser
begin_navigate key b = started key b (acquire_profile key b)

abbrev pub given_up : Browser → Option (BrowserSession × List BrowserSession) → Browser
given_up b none = b
given_up b (some (s, rest)) = record b {
  held = release_profile s.profile b.held;
  navigating = rest;
}

-- Navigate for a login ends with an error: the deferred call releases the lease.
unfoldable pub fail_navigate : ℕ → Browser → Browser
fail_navigate i b = given_up b (take_session i b.navigating)

abbrev pub store_session : Browser → Option (BrowserSession × List BrowserSession) → Browser
store_session b none = b
store_session b (some (s, rest)) = record b { navigating = rest; sessions = s ∷ b.sessions }

-- Navigate for a login ends with a session, which keeps the lease.
unfoldable pub finish_navigate : ℕ → Browser → Browser
finish_navigate i b = store_session b (take_session i b.navigating)

-- navigateWithSolver, where FlareSolverr has a solution.
unfoldable pub navigate_with_solver : String → Browser → Browser
navigate_with_solver key b = record b {
  next = suc b.next;
  sessions = record { id = b.next; profile = key; chromium = false } ∷ b.sessions;
}

abbrev pub session_closed : Browser → Option (BrowserSession × List BrowserSession) → Browser
session_closed b none = b
session_closed b (some (s, rest)) =
    if s.chromium
    then record b { held = release_profile s.profile b.held; sessions = rest }
    else record b { sessions = rest }

-- CloseSession, whether Chromium closes gracefully or not.
unfoldable pub close_session : ℕ → Browser → Browser
close_session i b = session_closed b (take_session i b.sessions)

pub data BrowserStep : Type 0 where
  begins solves : String → BrowserStep
  fails finishes closes : ℕ → BrowserStep

abbrev pub browser_step : Browser → BrowserStep → Browser
browser_step b (begins key) = begin_navigate key b
browser_step b (solves key) = navigate_with_solver key b
browser_step b (fails i) = fail_navigate i b
browser_step b (finishes i) = finish_navigate i b
browser_step b (closes i) = close_session i b

abbrev pub browser_run : Browser → List BrowserStep → Browser
browser_run b [] = b
browser_run b (s ∷ ss) = browser_run (browser_step b s) ss
