-- ===== src/Challenge/Manager.antt =====
-- internal/platform/browser/challenge.go: the methods of ChallengeManager. A method is a function
-- of the manager; `now` is what m.now() gives and `token` what uuid.NewString gives.
use shiori_server.Prelude.{
  ℕ, ◌+◌, String, Bool, true, false, not, ◌&&◌, Option, none, some, List, [], ◌∷◌, leb, ltb, ◌==◌,
  if◌then◌else◌,
}
use shiori_server.Prelude.Map.{find, put, delete, keep_if}
use shiori_server.Challenge.Types.{
  UserActionKind, login, challenge_kind, ChallengeStatus, pending, verifying, completed, cancelled,
  expired, ChallengeError, challenge_expired, challenge_cancelled, challenge_not_found,
  challenge_in_use, challenge_state, Challenge, ChallengeView, Manager, Result, ok, err, is_active,
  is_pending, is_verifying, is_completed, is_expired, no_view,
}

-- 3 * time.Minute
abbrev pub default_challenge_ttl : ℕ
default_challenge_ttl = 180000000000

unfoldable pub finish : ChallengeStatus → Challenge → Challenge
finish s c = record c { status = s; connected = false; done = true }

unfoldable pub view : Challenge → ChallengeView
view c = record {
  status = c.status;
  kind = c.kind;
  connected = c.connected;
  created_at = c.created_at;
  expires_at = c.expires_at;
}

-- A duration that is not positive stands as 0 here.
unfoldable pub new_manager : ℕ → Manager
new_manager ttl = record { challenges = []; ttl = if ttl == 0 then default_challenge_ttl else ttl }

abbrev pub state_error : ChallengeStatus → ChallengeError
state_error expired = challenge_expired
state_error cancelled = challenge_cancelled
state_error _ = challenge_state

-- now.Sub(c.expiresAt) > m.ttl, for a challenge that is not active
unfoldable pub is_stale : ℕ → ℕ → Challenge → Bool
is_stale now ttl c = not (is_active c.status) && ltb (c.expires_at + ttl) now

unfoldable pub remove_stale : ℕ → Manager → Manager
unfolding is_stale
remove_stale now m = record m {
  challenges = keep_if (λ _ c. not (is_stale now m.ttl c)) m.challenges;
}

abbrev pub kind_of : List UserActionKind → UserActionKind
kind_of (login ∷ _) = login
kind_of _ = challenge_kind

unfoldable pub create : ℕ → String → String → List UserActionKind → Manager → String × Manager
unfolding remove_stale
create now token session kinds m =
    let m' = remove_stale now m in
    (
      token,
      record m' {
        challenges =
            put token
              (record {
                session_id = session;
                kind = kind_of kinds;
                status = pending;
                connected = false;
                created_at = now;
                expires_at = now + m.ttl;
                done = false;
              })
              m'.challenges;
      },
    )

-- The challenge as lookupLocked leaves it: one that is active past its time has expired.
unfoldable pub refresh : ℕ → Challenge → Challenge
unfolding finish
refresh now c = if is_active c.status && leb c.expires_at now then finish expired c else c

-- lookupLocked, followed by what the method does with the challenge that it finds. `f` gives the
-- challenge as it is stored and the method's result.
unfoldable pub with_challenge :
    {A : Type 0} → ℕ → String → (Challenge → Result A × Challenge) → Manager → Result A × Manager
unfolding refresh
with_challenge now token f m = elim (find token m.challenges) [
  | none ↦ (err challenge_not_found, m)
  | some c ↦
      let c' = refresh now c in
      if is_expired c'.status
      then (err challenge_expired, record m { challenges = put token c' m.challenges })
      else ((f c').0, record m { challenges = put token (f c').1 m.challenges })
]

unfoldable pub get : ℕ → String → Manager → (ChallengeView × Option ChallengeError) × Manager
unfolding view
get now token m = elim (find token m.challenges) [
  | none ↦ ((no_view, some challenge_not_found), m)
  | some c ↦
      let c' = refresh now c in
      (
        (view c', if is_expired c'.status then some challenge_expired else none),
        record m { challenges = put token c' m.challenges },
      )
]

-- The bodies of the methods below, over the challenge that lookupLocked returned.
unfoldable pub read_session : Challenge → Result String × Challenge
read_session c = (if is_active c.status then ok c.session_id else err (state_error c.status), c)

unfoldable pub take_control : Challenge → Result String × Challenge
take_control c =
    if not (is_pending c.status)
    then (err (state_error c.status), c)
    else if c.connected
    then (err challenge_in_use, c)
    else (ok c.session_id, record c { connected = true })

unfoldable pub start_verification : Challenge → Result String × Challenge
start_verification c =
    if not (is_pending c.status)
    then (err (state_error c.status), c)
    else (ok c.session_id, record c { status = verifying })

unfoldable pub back_to_pending : Challenge → Result (Unit {0}) × Challenge
back_to_pending c =
    if not (is_verifying c.status)
    then (err (state_error c.status), c)
    else (ok tt, record c { status = pending })

unfoldable pub complete : Challenge → Result ChallengeView × Challenge
unfolding view finish
complete c =
    if not (is_verifying c.status)
    then (err (state_error c.status), c)
    else (ok (view (finish completed c)), finish completed c)

unfoldable pub give_up : Challenge → Result (Unit {0}) × Challenge
unfolding finish
give_up c =
    if is_completed c.status then (err (state_error c.status), c) else (ok tt, finish cancelled c)

unfoldable pub get_session : ℕ → String → Manager → Result String × Manager
unfolding read_session
get_session now token = with_challenge now token read_session

unfoldable pub acquire_controller : ℕ → String → Manager → Result String × Manager
unfolding take_control
acquire_controller now token = with_challenge now token take_control

unfoldable pub begin_verification : ℕ → String → Manager → Result String × Manager
unfolding start_verification
begin_verification now token = with_challenge now token start_verification

unfoldable pub reject_verification : ℕ → String → Manager → Result (Unit {0}) × Manager
unfolding back_to_pending
reject_verification now token = with_challenge now token back_to_pending

unfoldable pub resolve : ℕ → String → Manager → Result ChallengeView × Manager
unfolding complete
resolve now token = with_challenge now token complete

unfoldable pub cancel : ℕ → String → Manager → Result (Unit {0}) × Manager
unfolding give_up
cancel now token = with_challenge now token give_up

unfoldable pub release_controller : String → Manager → Manager
release_controller token m = elim (find token m.challenges) [
  | none ↦ m
  | some c ↦ record m { challenges = put token (record c { connected = false }) m.challenges }
]

unfoldable pub expire : String → Manager → Manager
unfolding finish
expire token m = elim (find token m.challenges) [
  | none ↦ m
  | some c ↦
      if is_active c.status
      then record m { challenges = put token (finish expired c) m.challenges }
      else m
]

-- Besides the manager it gives the challenge as those still have it who hold a pointer to it: an
-- active one is finished before it is deleted, which closes the channel of its waiters.
unfoldable pub remove : String → Manager → Option Challenge × Manager
unfolding finish
remove token m = elim (find token m.challenges) [
  | none ↦ (none, m)
  | some c ↦ (
    some (if is_active c.status then finish cancelled c else c),
    record m { challenges = delete token m.challenges },
  )
]
