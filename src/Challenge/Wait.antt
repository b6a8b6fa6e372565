-- ===== src/Challenge/Wait.antt =====
-- internal/platform/browser/challenge.go: Wait, in two halves about its select.
use shiori_server.Prelude.{ℕ, String, Bool, true, false, none, some, if◌then◌else◌}
use shiori_server.Challenge.Types.{
  Challenge, ChallengeStatus, completed, cancelled, ChallengeError, challenge_expired,
  challenge_cancelled, context_done, Manager, Result, ok, err,
}
use shiori_server.Challenge.Manager.{get, cancel, expire, with_challenge}

unfoldable pub read_deadline : Challenge → Result ℕ × Challenge
read_deadline c = (ok c.expires_at, c)

-- The first half of Wait: what it reads under the lock.
unfoldable pub wait_begin : ℕ → String → Manager → Result ℕ × Manager
unfolding read_deadline
wait_begin now token = with_challenge now token read_deadline

-- Which case of the select of Wait runs.
pub data Wake : Type 0 where
  context timer closed : Wake

-- Wait's reading of the status of a challenge whose channel is closed.
abbrev pub outcome_of : ChallengeStatus → Result (Unit {0})
outcome_of completed = ok tt
outcome_of cancelled = err challenge_cancelled
outcome_of _ = err challenge_expired

abbrev pub is_expired_error : ChallengeError → Bool
is_expired_error challenge_expired = true
is_expired_error _ = false

-- The second half of Wait.
unfoldable pub wait_end : Wake → ℕ → String → Manager → Result (Unit {0}) × Manager
wait_end context now token m = (err context_done, (cancel now token m).1)
wait_end timer now token m = (err challenge_expired, expire token m)
wait_end closed now token m =
    let ((v, e), m') = get now token m in
    (
      elim e [
        | none ↦ outcome_of v.status
        | some e' ↦ if is_expired_error e' then outcome_of v.status else err e'
      ],
      m',
    )
