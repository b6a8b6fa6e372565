-- ===== src/Challenge/Diagram.antt =====
-- The states of a challenge over any calls: what is final stays final, and what must come before
-- a completed one.
use shiori_server.Prelude.{
  ◌∙◌, ap, ℕ, ◌≤◌, ◌≡◌, refl, String, Bool, true, false, ◌&&◌, ◌||◌, Option, none, some, List, [],
  ◌∷◌, arith, str_eq, inl, inr, ◌⊎◌, All,
}
use shiori_server.Prelude.Map.{find}
use shiori_server.Challenge.Types.{
  ChallengeStatus, pending, verifying, completed, cancelled, expired, Challenge, Manager, is_active,
}
use shiori_server.Challenge.Manager.{finish, refresh}
use shiori_server.Challenge.Refinement.{
  find-apply, Fate, same, gone, stepped, created, entry-Fate, creates,
}
use shiori_server.Challenge.Runs.{token_of, Op, create_op, begin_op, resolve_op, apply, run, step}
use shiori_server.Challenge.Invariant.{IsSound}

-- How one call may change the status of a challenge that it leaves in the manager.
pub data Edge : ChallengeStatus → ChallengeStatus → Type 0 where
  stay : {s : ChallengeStatus} → Edge s s
  verify : Edge pending verifying
  reject : Edge verifying pending
  accept : Edge verifying completed
  abandon : {s : ChallengeStatus} → is_active s ≡ true → Edge s cancelled
  time_out : {s : ChallengeStatus} → is_active s ≡ true → Edge s expired

ruleset edges = (stay, verify, reject, accept, abandon, time_out)

-- A call moves a sound challenge along an edge of the diagram.
pub step-Edge : (o : Op) (c : Challenge) → IsSound c → Edge c.status (step o c).status
unfolding step refresh finish
step-Edge (create_op now k session kinds) c v = stay
step-Edge o c v = grind (arith, edges)

-- A challenge that is no longer active is not changed by any call.
pub step_settled : (o : Op) (c : Challenge) → IsSound c → is_active c.status ≡ false → step o c ≡ c
unfolding step refresh finish
step_settled (create_op now k session kinds) c v h = refl
step_settled o c v h = ground arith

-- Either no challenge, or this one.
abbrev pub GoneOr : Challenge → Option Challenge → Type 0
GoneOr c e = (e ≡ none) ⊎ (e ≡ some c)

settled_entry :
    (o : Op) (i : String) (c : Challenge) (e r : Option Challenge)
    → Fate o i e r
    → IsSound c
    → is_active c.status ≡ false
    → creates i o ≡ false
    → GoneOr c e
    → GoneOr c r
settled_entry o i c e r (same q) v h no_new g = rw q g
settled_entry o i c e r (gone q) v h no_new g = inl q
settled_entry o i c e r (created _ _ _ _ new _) v h no_new g = cc
settled_entry o i c e r (stepped c' before after _) v h no_new (inl q) = cc
settled_entry o i c e r (stepped c' before after _) v h no_new (inr q) =
    let here : c' ≡ c = cc in inr (after ∙ ap some (rw here (step_settled o c v h)))

-- A challenge that is completed, cancelled or expired stays as it is, in every field, through any
-- calls, until it is removed; only the creation of a challenge under the same token is excluded.
pub challenge_settled :
    (os : List Op) (m : Manager) (i : String) (c : Challenge)
    → All (λ o. creates i o ≡ false) os
    → IsSound c
    → is_active c.status ≡ false
    → GoneOr c (find i m.challenges)
    → GoneOr c (find i (run os m).challenges)
unfolding run
challenge_settled [] m i c no_new v h g = g
challenge_settled (o ∷ os) m i c no_new v h g = challenge_settled os (apply o m) i c no_new.1 v h (
    rw (find-apply o i m)
      (settled_entry o i c _ _ (entry-Fate o i m.ttl (find i m.challenges)) v h no_new.0 g))

-- The call is BeginVerification, or Resolve, with the token `i`.
abbrev pub begins : String → Op → Bool
begins i (begin_op now k) = str_eq k i
begins i _ = false

abbrev pub resolves : String → Op → Bool
resolves i (resolve_op now k) = str_eq k i
resolves i _ = false

abbrev pub some_op : (Op → Bool) → List Op → Bool
some_op test [] = false
some_op test (o ∷ os) = test o || some_op test os

-- A Resolve with a BeginVerification before it.
abbrev pub verified_then_resolved : String → List Op → Bool
verified_then_resolved i [] = false
verified_then_resolved i (o ∷ os) =
    (begins i o && some_op (resolves i) os) || verified_then_resolved i os

-- How far the challenge of a token is: 0 before its verification, 1 while it is verified, 2 when it
-- is completed.
stage : Option Challenge → ℕ
stage none = 0
stage (some c) = elim c.status [ verifying ↦ 1 | completed ↦ 2 | _ ↦ 0 ]

stage-step :
    (o : Op) (i : String) (c : Challenge)
    → str_eq (token_of o) i ≡ true
    → ((stage (some c) ≡ 0) × (begins i o ≡ true) × (stage (some (step o c)) ≤ 1))
      ⊎ ((stage (some c) ≡ 1) × (resolves i o ≡ true))
      ⊎ (stage (some (step o c)) ≤ stage (some c))
unfolding step refresh finish stage
stage-step (create_op now k session kinds) i c here = inr (inr (omega arith))
stage-step o i c here = ground arith

stage-Fate :
    (o : Op) (i : String) (e r : Option Challenge)
    → Fate o i e r
    → ((stage e ≡ 0) × (begins i o ≡ true) × (stage r ≤ 1))
      ⊎ ((stage e ≡ 1) × (resolves i o ≡ true))
      ⊎ (stage r ≤ stage e)
unfolding stage
stage-Fate o i e r (same q) = inr (inr (rw q (omega arith)))
stage-Fate o i e r (gone q) = inr (inr (rw q (omega arith)))
stage-Fate o i e r (created now ttl session kinds _ q) = inr (inr (rw q (omega arith)))
stage-Fate o i e r (stepped c before after here) = rw (before, after) (stage-step o i c here)

stage-apply :
    (o : Op) (i : String) (m : Manager)
    → ((stage (find i m.challenges) ≡ 0)
        × (begins i o ≡ true)
        × (stage (find i (apply o m).challenges) ≤ 1))
      ⊎ ((stage (find i m.challenges) ≡ 1) × (resolves i o ≡ true))
      ⊎ (stage (find i (apply o m).challenges) ≤ stage (find i m.challenges))
stage-apply o i m =
    rw (find-apply o i m) (stage-Fate o i _ _ (entry-Fate o i m.ttl (find i m.challenges)))

resolved_later :
    (os : List Op) (i : String) (m : Manager)
    → stage (find i m.challenges) ≤ 1
    → stage (find i (run os m).challenges) ≡ 2
    → some_op (resolves i) os ≡ true
unfolding run
resolved_later [] i m h done = absurd (omega arith)
resolved_later (o ∷ os) i m h done = elim (stage-apply o i m) [
  | inl (_, _, up) ↦ ground (arith, resolved_later os i (apply o m) up done)
  | inr (inl (_, now_resolved)) ↦ ground arith
  | inr (inr le) ↦ ground (arith, resolved_later os i (apply o m) (omega arith) done)
]

verified_before :
    (os : List Op) (i : String) (m : Manager)
    → stage (find i m.challenges) ≡ 0
    → stage (find i (run os m).challenges) ≡ 2
    → verified_then_resolved i os ≡ true
unfolding run
verified_before [] i m h done = absurd (omega arith)
verified_before (o ∷ os) i m h done = elim (stage-apply o i m) [
  | inl (_, begun, up) ↦ ground (arith, resolved_later os i (apply o m) up done)
  | inr (inl (one, _)) ↦ absurd (omega arith)
  | inr (inr le) ↦ ground (arith, verified_before os i (apply o m) (omega arith) done)
]

-- No client completes a challenge without the backend's verification: if a token that was unknown
-- is completed after some calls, they contain a Resolve of that token after a BeginVerification of
-- it.
pub completed_needs_verification :
    (os : List Op) (i : String) (m : Manager) (c : Challenge)
    → find i m.challenges ≡ none
    → find i (run os m).challenges ≡ some c
    → c.status ≡ completed
    → verified_then_resolved i os ≡ true
unfolding stage
completed_needs_verification os i m c unknown found done =
    verified_before os i m (rw unknown refl) (rw (found, done) refl)
