-- ===== src/Challenge/Runs.antt =====
-- Sequences of calls on the challenge manager, and the same calls seen at one token: each token is
-- a machine of its own.
use shiori_server.Prelude.{
  ℕ, ◌+◌, String, true, false, not, ◌&&◌, Option, none, some, List, [], ◌∷◌, str_eq, if◌then◌else◌,
}
use shiori_server.Prelude.Map.{only_if}
use shiori_server.Challenge.Types.{
  UserActionKind, ChallengeStatus, pending, verifying, completed, cancelled, expired, Challenge,
  Manager, is_active, is_pending, is_verifying, is_completed, is_expired,
}
use shiori_server.Challenge.Manager.{
  finish, create, kind_of, is_stale, refresh, get, get_session, acquire_controller,
  release_controller, begin_verification, reject_verification, resolve, cancel, expire, remove,
}
use shiori_server.Challenge.Wait.{wait_begin}

pub data Op : Type 0 where
  create_op : ℕ → String → String → List UserActionKind → Op
  get_op get_session_op acquire_op begin_op reject_op resolve_op cancel_op wait_op : ℕ → String → Op
  release_op expire_op remove_op : String → Op

-- The manager after one call, whatever the call returns.
unfoldable pub apply : Op → Manager → Manager
apply (create_op now k session kinds) m = (create now k session kinds m).1
apply (get_op now k) m = (get now k m).1
apply (get_session_op now k) m = (get_session now k m).1
apply (acquire_op now k) m = (acquire_controller now k m).1
apply (begin_op now k) m = (begin_verification now k m).1
apply (reject_op now k) m = (reject_verification now k m).1
apply (resolve_op now k) m = (resolve now k m).1
apply (cancel_op now k) m = (cancel now k m).1
apply (wait_op now k) m = (wait_begin now k m).1
apply (release_op k) m = release_controller k m
apply (expire_op k) m = expire k m
apply (remove_op k) m = (remove k m).1

unfoldable pub run : List Op → Manager → Manager
run [] m = m
run (o ∷ os) m = run os (apply o m)

abbrev pub token_of : Op → String
token_of (create_op now k session kinds) = k
token_of (get_op now k) = k
token_of (get_session_op now k) = k
token_of (acquire_op now k) = k
token_of (begin_op now k) = k
token_of (reject_op now k) = k
token_of (resolve_op now k) = k
token_of (cancel_op now k) = k
token_of (wait_op now k) = k
token_of (release_op k) = k
token_of (expire_op k) = k
token_of (remove_op k) = k

-- The machine of one challenge: what a call with its token makes of it once the deadline is seen.
abbrev pub advance : (Challenge → Challenge) → ℕ → Challenge → Challenge
advance f now c = let c' = refresh now c in if is_expired c'.status then c' else f c'

abbrev pub acquired : Challenge → Challenge
acquired c = if is_pending c.status && not c.connected then record c { connected = true } else c

abbrev pub moved : ChallengeStatus → ChallengeStatus → Challenge → Challenge
moved verifying pending c = if is_verifying c.status then record c { status = pending } else c
moved verifying s c = if is_verifying c.status then finish s c else c
moved _ s c = if is_pending c.status then record c { status = s } else c

-- The challenge of its own token after a call that neither creates nor removes it.
unfoldable pub step : Op → Challenge → Challenge
step (acquire_op now k) c = advance acquired now c
step (begin_op now k) c = advance (moved pending verifying) now c
step (reject_op now k) c = advance (moved verifying pending) now c
step (resolve_op now k) c = advance (moved verifying completed) now c
step (cancel_op now k) c =
    advance (λ c'. if is_completed c'.status then c' else finish cancelled c') now c
step (get_op now k) c = refresh now c
step (get_session_op now k) c = refresh now c
step (wait_op now k) c = refresh now c
step (release_op k) c = record c { connected = false }
step (expire_op k) c = if is_active c.status then finish expired c else c
step (create_op now k session kinds) c = c
step (remove_op k) c = c

abbrev pub fresh : ℕ → ℕ → String → List UserActionKind → Challenge
fresh now ttl session kinds = record {
  session_id = session;
  kind = kind_of kinds;
  status = pending;
  connected = false;
  created_at = now;
  expires_at = now + ttl;
  done = false;
}

abbrev pub on_some : (Challenge → Challenge) → Option Challenge → Option Challenge
on_some f none = none
on_some f (some c) = some (f c)

-- What a call makes of the challenge of token `i`.
unfoldable pub entry : Op → String → ℕ → Option Challenge → Option Challenge
entry (create_op now k session kinds) i ttl o =
    if str_eq k i
    then some (fresh now ttl session kinds)
    else only_if (λ c. not (is_stale now ttl c)) o
entry (remove_op k) i ttl o = if str_eq k i then none else o
entry o' i ttl o = if str_eq (token_of o') i then on_some (step o') o else o
