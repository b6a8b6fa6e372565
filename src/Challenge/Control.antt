-- ===== src/Challenge/Control.antt =====
-- Who may act on a challenge: one controller at a time, and nobody after the deadline.
use shiori_server.Prelude.{
  ◌≢◌, ℕ, ◌<◌, ◌≡◌, refl, String, Bool, true, false, Option, none, some, List, [], ◌∷◌, arith,
  eq_iff, str_eq, inl, inr, ◌⊎◌, Option-cases, All,
}
use shiori_server.Prelude.Map.{find, find-put}
use shiori_server.Challenge.Types.{Challenge, ChallengeError, Manager, Result, ok, err, is_active}
use shiori_server.Challenge.Manager.{
  finish, refresh, with_challenge, get_session, acquire_controller, begin_verification,
}
use shiori_server.Challenge.Refinement.{find-apply, Fate, same, gone, stepped, created, entry-Fate}
use shiori_server.Challenge.Runs.{token_of, Op, create_op, release_op, apply, run, step}

-- No controller can be acquired: there is no challenge, or it has one, or it is not active.
abbrev IsBlocked : Option Challenge → Type 0
IsBlocked none = Unit
IsBlocked (some c) = (c.connected ≡ true) ⊎ (is_active c.status ≡ false)

-- The call releases the controller of `i`, or creates a challenge under it.
abbrev pub frees : String → Op → Bool
frees i (release_op k) = str_eq k i
frees i (create_op now k session kinds) = str_eq k i
frees i _ = false

step-IsBlocked :
    (o : Op) (i : String) (c : Challenge)
    → str_eq (token_of o) i ≡ true
    → frees i o ≡ false
    → IsBlocked (some c)
    → IsBlocked (some (step o c))
unfolding step refresh finish
step-IsBlocked (release_op k) i c here no_free b = cc
step-IsBlocked (create_op now k session kinds) i c here no_free b = cc
step-IsBlocked o i c here no_free b = ground arith

Fate-IsBlocked :
    (o : Op) (i : String) (e r : Option Challenge)
    → Fate o i e r
    → frees i o ≡ false
    → IsBlocked e
    → IsBlocked r
Fate-IsBlocked o i e r (same q) no_free b = rw q b
Fate-IsBlocked o i e r (gone q) no_free b = rw q tt
Fate-IsBlocked (create_op now k session kinds) i e r (created _ _ _ _ new q) no_free b = cc
Fate-IsBlocked o i e r (created _ _ _ _ new q) no_free b = cc
Fate-IsBlocked o i e r (stepped c before after here) no_free b =
    rw after (step-IsBlocked o i c here no_free (rw before at b))

run-IsBlocked :
    (os : List Op) (i : String) (m : Manager)
    → All (λ o. frees i o ≡ false) os
    → IsBlocked (find i m.challenges)
    → IsBlocked (find i (run os m).challenges)
unfolding run
run-IsBlocked [] i m no_free b = b
run-IsBlocked (o ∷ os) i m no_free b = run-IsBlocked os i (apply o m) no_free.1 (
    rw (find-apply o i m)
      (Fate-IsBlocked o i _ _ (entry-Fate o i m.ttl (find i m.challenges)) no_free.0 b))

never_blocked :
    (now : ℕ) (i session : String) (m : Manager)
    → IsBlocked (find i m.challenges)
    → (acquire_controller now i m).0 ≢ ok session
unfolding acquire_controller with_challenge refresh finish
never_blocked now i session m b h = elim (Option-cases (find i m.challenges)) [
  | inl missing ↦ absurd (ground arith)
  | inr (c, found) ↦ let b' : IsBlocked (some c) = rw found at b in absurd (ground arith)
]

Result-cases :
    {A : Type 0} (x : Result A) → ((a : A) × (x ≡ ok a)) ⊎ ((e : ChallengeError) × (x ≡ err e))
Result-cases (ok a) = inl (a, refl)
Result-cases (err e) = inr (e, refl)

acquire_blocked :
    (now : ℕ) (i : String) (m : Manager)
    → IsBlocked (find i m.challenges)
    → (e : ChallengeError) × ((acquire_controller now i m).0 ≡ err e)
acquire_blocked now i m b = elim (Result-cases (acquire_controller now i m).0) [
  | inl (session, h) ↦ absurd (never_blocked now i session m b h)
  | inr denied ↦ denied
]

acquire_written :
    (now : ℕ) (i session : String) (m : Manager) (c : Challenge)
    → find i m.challenges ≡ some c
    → (acquire_controller now i m).0 ≡ ok session
    → find i (acquire_controller now i m).1.challenges ≡ some (record c { connected = true })
unfolding acquire_controller with_challenge refresh finish
acquire_written now i session m c found h =
    ground (arith, eq_iff i i, find-put i i (record c { connected = true }) m.challenges)

acquired_blocks :
    (now : ℕ) (i session : String) (m : Manager)
    → (acquire_controller now i m).0 ≡ ok session
    → IsBlocked (find i (acquire_controller now i m).1.challenges)
unfolding acquire_controller with_challenge
acquired_blocks now i session m h = elim (Option-cases (find i m.challenges)) [
  | inl missing ↦ absurd (ground arith)
  | inr (c, found) ↦ rw (acquire_written now i session m c found h) (inl refl)
]

-- One controller at a time: after a successful AcquireController no other one succeeds, whatever
-- calls come between, unless they release the controller or create a challenge under the token.
pub controller_exclusive :
    (now now' : ℕ) (i session : String) (os : List Op) (m : Manager)
    → (acquire_controller now i m).0 ≡ ok session
    → All (λ o. frees i o ≡ false) os
    → (e : ChallengeError) × ((acquire_controller now' i (run os (acquire_controller now i m).1)).0
        ≡ err e)
controller_exclusive now now' i session os m h no_free =
    acquire_blocked now' i (run os (acquire_controller now i m).1) (
      run-IsBlocked os i (acquire_controller now i m).1 no_free (acquired_blocks now i session m h))

-- A token gives its browser session away only while it is valid: whichever of GetSession,
-- AcquireController and BeginVerification returns a session, it is that of the token's own
-- challenge, which is active and before its deadline.
pub session_guarded :
    (now : ℕ) (i session : String) (m : Manager)
    → ((get_session now i m).0 ≡ ok session)
      ⊎ ((acquire_controller now i m).0 ≡ ok session)
      ⊎ ((begin_verification now i m).0 ≡ ok session)
    → (c : Challenge) × (find i m.challenges ≡ some c)
      × (is_active c.status ≡ true)
      × (now < c.expires_at)
      × (session ≡ c.session_id)
unfolding get_session acquire_controller begin_verification with_challenge refresh finish
session_guarded now i session m h = elim (Option-cases (find i m.challenges)) [
  | inl missing ↦ absurd (ground arith)
  | inr (c, found) ↦ (c, found, ground arith, ground arith, ground arith)
]
