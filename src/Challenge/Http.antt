-- ===== src/Challenge/Http.antt =====
-- internal/jobs/challenge_handler.go: the endpoints of a challenge. The page, its script, the
-- headers and the sizes and deadlines of the socket are not modelled.
use shiori_server.Prelude.{ℕ, String, Bool, true, false, Option, none, some, List, []}
use shiori_server.Challenge.Types.{
  UserActionKind, ChallengeError, challenge_expired, challenge_cancelled, challenge_not_found,
  challenge_in_use, challenge_state, context_done, ChallengeView, Manager, Result, ok, err,
}
use shiori_server.Challenge.Manager.{
  get, acquire_controller, begin_verification, reject_verification, resolve, cancel,
  release_controller,
}
use shiori_server.Challenge.Runs.{Op, run}
use shiori_server.Challenge.Input.{Message, InputEvent, forward}

-- What is written to the client; `nothing` where the connection was hijacked or refused.
pub data Reply : Type 0 where
  html : Reply
  json : ChallengeView → Reply
  no_content nothing : Reply
  problem : ℕ → String → Reply

unfoldable pub respond_error : ChallengeError → Reply
respond_error challenge_not_found = problem 404 "Challenge Not Found"
respond_error challenge_expired = problem 410 "Challenge Expired"
respond_error challenge_in_use = problem 409 "Challenge In Use"
respond_error challenge_cancelled = problem 410 "Challenge Cancelled"
respond_error challenge_state = problem 409 "Invalid Challenge State"
respond_error context_done = problem 409 "Invalid Challenge State"

abbrev pub shown : (ChallengeView × Option ChallengeError) × Manager → Reply × Manager
shown ((v, none), m) = (html, m)
shown ((v, some e), m) = (respond_error e, m)

unfoldable pub serve_html : ℕ → String → Manager → Reply × Manager
unfolding respond_error
serve_html now token m = shown (get now token m)

abbrev pub viewed : (ChallengeView × Option ChallengeError) × Manager → Reply × Manager
viewed ((v, none), m) = (json v, m)
viewed ((v, some challenge_expired), m) = (json v, m)
viewed ((v, some e), m) = (respond_error e, m)

unfoldable pub get_status : ℕ → String → Manager → Reply × Manager
unfolding respond_error
get_status now token m = viewed (get now token m)

-- What the browser says of the session, where it answers in time: whether and which action of the
-- user it still wants.
pub data Snapshot : Type 0 where
  failed clear : Snapshot
  wants : UserActionKind → Snapshot

abbrev pub resolved : Result ChallengeView × Manager → Reply × Manager
resolved (ok v, m) = (json v, m)
resolved (err e, m) = (respond_error e, m)

-- After the snapshot, at the time `now`.
unfoldable pub finish_verification : ℕ → String → Snapshot → Manager → Reply × Manager
unfolding respond_error
finish_verification now token failed m =
    (problem 502 "Challenge Verification Failed", (reject_verification now token m).1)
finish_verification now token (wants k) m =
    (problem 409 "User Action Still Required", (reject_verification now token m).1)
finish_verification now token clear m = resolved (resolve now token m)

abbrev pub begun : (Manager → Reply × Manager) → Result String × Manager → Reply × Manager
begun next (ok session, m) = next m
begun next (err e, m) = (respond_error e, m)

-- `os` are the calls of others on the manager while the browser is asked.
unfoldable pub complete_challenge : ℕ → ℕ → String → Snapshot → List Op → Manager → Reply × Manager
unfolding respond_error
complete_challenge now now' token snapshot os m =
    begun (λ m'. finish_verification now' token snapshot (run os m'))
      (begin_verification now token m)

abbrev pub cancelled_reply : Result (Unit {0}) × Manager → Reply × Manager
cancelled_reply (ok u, m) = (no_content, m)
cancelled_reply (err e, m) = (respond_error e, m)

unfoldable pub cancel_challenge : ℕ → String → Manager → Reply × Manager
unfolding respond_error
cancel_challenge now token m = cancelled_reply (cancel now token m)

-- `upgraded` says whether the socket is made; `os` are the calls of others while it is open, `ms`
-- what is read from it; the events are those that reach the browser.
abbrev pub connected_reply :
    String
    → Bool
    → List Op
    → List InputEvent
    → Result String × Manager
    → (Reply × List InputEvent) × Manager
connected_reply token upgraded os events (err e, m) = ((respond_error e, []), m)
connected_reply token false os events (ok session, m) = ((nothing, []), release_controller token m)
connected_reply token true os events (ok session, m) =
    ((nothing, events), release_controller token (run os m))

unfoldable pub serve_ws :
    (one : ℕ)
    → ℕ
    → String
    → Bool
    → List Op
    → List (Message one)
    → Manager
    → (Reply × List InputEvent) × Manager
unfolding respond_error forward
serve_ws one now token upgraded os ms m =
    connected_reply token upgraded os (forward one now 0 ms) (acquire_controller now token m)
