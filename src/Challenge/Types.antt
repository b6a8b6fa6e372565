-- ===== src/Challenge/Types.antt =====
-- internal/platform/browser/challenge.go: the types of the challenge manager.
use shiori_server.Prelude.{ℕ, String, Bool, true, false, List}

pub data UserActionKind : Type 0 where
  kind_none challenge_kind login blocked : UserActionKind

pub data ChallengeStatus : Type 0 where
  pending verifying completed cancelled expired : ChallengeStatus

-- The package's errors, and the error of a done context.
pub data ChallengeError : Type 0 where
  challenge_expired challenge_cancelled challenge_not_found challenge_in_use challenge_state :
      ChallengeError
  context_done : ChallengeError

-- `done` says whether the channel of that name is closed.
pub record Challenge : Type 0 where
  pub session_id : String
  pub kind : UserActionKind
  pub status : ChallengeStatus
  pub connected : Bool
  pub created_at : ℕ
  pub expires_at : ℕ
  pub done : Bool

pub record ChallengeView : Type 0 where
  pub status : ChallengeStatus
  pub kind : UserActionKind
  pub connected : Bool
  pub created_at : ℕ
  pub expires_at : ℕ

pub record Manager : Type 0 where
  pub challenges : List (String × Challenge)
  pub ttl : ℕ

-- A value or an error, as the pair that a Go method returns.
pub data Result (A : Type 0) : Type 0 where
  ok : A → Result A
  err : ChallengeError → Result A

-- status == ChallengePending || status == ChallengeVerifying
abbrev pub is_active : ChallengeStatus → Bool
is_active pending = true
is_active verifying = true
is_active _ = false

abbrev pub is_pending : ChallengeStatus → Bool
is_pending pending = true
is_pending _ = false

abbrev pub is_verifying : ChallengeStatus → Bool
is_verifying verifying = true
is_verifying _ = false

abbrev pub is_completed : ChallengeStatus → Bool
is_completed completed = true
is_completed _ = false

-- ChallengeView{}; its status is the empty text, which is none of the constants: wherever it is
-- returned the error stands beside it.
abbrev pub no_view : ChallengeView
no_view = record {
  status = expired;
  kind = kind_none;
  connected = false;
  created_at = 0;
  expires_at = 0;
}

abbrev pub is_expired : ChallengeStatus → Bool
is_expired expired = true
is_expired _ = false
