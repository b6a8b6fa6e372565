-- ===== src/Challenge/Completion.antt =====
-- internal/jobs/challenge_handler.go: completeChallenge seen from the challenge.
use mathlib.Core.Path.{subst}
use shiori_server.Prelude.{
  ℕ, ◌<◌, ◌≡◌, ◌≢◌, refl, sym, ap, ◌∙◌, String, true, false, some, List, [], arith, eq_refl, inl,
  inr, leb, Bool-cases, Option-cases,
}
use shiori_server.Prelude.Map.{find, put, find-put}
use shiori_server.Challenge.Types.{
  ChallengeStatus, pending, verifying, completed, cancelled, expired, Challenge, ChallengeView,
  ChallengeError, challenge_expired, challenge_not_found, challenge_cancelled, challenge_in_use,
  challenge_state, context_done, Manager, Result, ok, err, is_active, is_pending, is_verifying,
  is_expired,
}
use shiori_server.Challenge.Manager.{
  finish, view, refresh, with_challenge, start_verification, back_to_pending, complete,
  begin_verification, reject_verification, resolve,
}
use shiori_server.Challenge.Runs.{Op, run}
use shiori_server.Challenge.Http.{
  Reply, json, problem, respond_error, Snapshot, failed, clear, wants, resolved,
  finish_verification, begun, complete_challenge,
}

-- A call on an active challenge before its deadline.
on_time :
    {A : Type 0} (now : ℕ) (i : String) (f : Challenge → Result A × Challenge) (m : Manager)
    (c : Challenge)
    → find i m.challenges ≡ some c
    → is_active c.status ≡ true
    → now < c.expires_at
    → with_challenge now i f m ≡ ((f c).0, record m { challenges = put i (f c).1 m.challenges })
unfolding with_challenge refresh
on_time now i f m c there active early =
    let open' : leb c.expires_at now ≡ false = ground (arith, early) in
    let alive : is_expired c.status ≡ false = active_alive c.status active in
    ground (arith, there, active, open', alive)
  where
    active_alive : (s : ChallengeStatus) → is_active s ≡ true → is_expired s ≡ false
    active_alive pending h = refl
    active_alive verifying h = refl
    active_alive completed h = refl
    active_alive cancelled h = refl
    active_alive expired h = cc h

-- The entry of a token whose challenge is stored anew.
find_put :
    (i : String) (c : Challenge) (m : Manager)
    → find i (record m { challenges = put i c m.challenges }).challenges ≡ some c
find_put i c m = rw (find-put i i c m.challenges, eq_refl i) refl

module _ (now : ℕ) (i : String) (m : Manager) (c : Challenge) (there : find i m.challenges ≡ some c)
    (early : now < c.expires_at) where
  begins :
      c.status ≡ pending
      → begin_verification now i m ≡ (
        ok c.session_id,
        record m { challenges = put i (record c { status = verifying }) m.challenges },
      )
  unfolding begin_verification start_verification
  begins e =
      let active : is_active c.status ≡ true = rw e refl in
      let waiting : is_pending c.status ≡ true = rw e refl in
      on_time now i start_verification m c there active early ∙ ground (arith, waiting)

  rejects :
      c.status ≡ verifying
      → (reject_verification now i m).1
        ≡ record m { challenges = put i (record c { status = pending }) m.challenges }
  unfolding reject_verification back_to_pending
  rejects e =
      let active : is_active c.status ≡ true = rw e refl in
      let asked : is_verifying c.status ≡ true = rw e refl in
      ap (λ r. r.1) (on_time now i back_to_pending m c there active early) ∙ ground (arith, asked)

  resolves :
      c.status ≡ verifying
      → resolve now i m ≡ (
        ok (view (finish completed c)),
        record m { challenges = put i (finish completed c) m.challenges },
      )
  unfolding resolve complete
  resolves e =
      let active : is_active c.status ≡ true = rw e refl in
      let asked : is_verifying c.status ≡ true = rw e refl in
      on_time now i complete m c there active early ∙ ground (arith, asked)

-- What the browser's answer makes of a pending challenge, and what the client is told.
abbrev pub outcome : Snapshot → Challenge → Reply × Challenge
outcome failed c = (problem 502 "Challenge Verification Failed", c)
outcome (wants k) c = (problem 409 "User Action Still Required", c)
outcome clear c =
    let c' = record c { status = completed; connected = false; done = true } in
    (
      json (record {
        status = completed;
        kind = c.kind;
        connected = false;
        created_at = c.created_at;
        expires_at = c.expires_at;
      }),
      c',
    )

back_again :
    (now : ℕ) (i : String) (m : Manager) (c c' : Challenge)
    → find i m.challenges ≡ some c'
    → c' ≡ record c { status = verifying }
    → c.status ≡ pending
    → now < c.expires_at
    → find i (reject_verification now i m).1.challenges ≡ some c
back_again now i m c c' there same waits early =
    let entry : find i m.challenges ≡ some (record c { status = verifying }) =
      there ∙ ap (λ x. some x) same in
    ap (λ x. find i x.challenges)
      (rejects now i m (record c { status = verifying }) entry early refl)
    ∙ find_put i (record c { status = pending }) m
    ∙ ap (λ x. some (record c { status = x })) (sym waits)

finish_verification_lem :
    (now : ℕ) (i : String) (s : Snapshot) (m : Manager) (c : Challenge)
    → find i m.challenges ≡ some (record c { status = verifying })
    → c.status ≡ pending
    → now < c.expires_at
    → ((finish_verification now i s m).0 ≡ (outcome s c).0)
      × (find i (finish_verification now i s m).1.challenges ≡ some (outcome s c).1)
unfolding finish_verification view finish
finish_verification_lem now i failed m c there waits early =
    (refl, back_again now i m c (record c { status = verifying }) there refl waits early)
finish_verification_lem now i (wants k) m c there waits early =
    (refl, back_again now i m c (record c { status = verifying }) there refl waits early)
finish_verification_lem now i clear m c there waits early =
    let e = resolves now i m (record c { status = verifying }) there early refl in
    (
      ap (λ x. (resolved x).0) e ∙ refl,
      ap (λ x. find i (resolved x).1.challenges) e
          ∙ find_put i (finish completed (record c { status = verifying })) m
          ∙ refl,
    )

-- For a pending challenge, where nobody else calls meanwhile and the deadline is not reached: where
-- the browser fails the answer is 502, where it still wants an action of the user 409, and in both
-- cases the challenge is as it was; where it wants none the answer shows the completed challenge,
-- and that is stored, with its channel closed.
pub complete_challenge_lem :
    (now now' : ℕ) (i : String) (s : Snapshot) (m : Manager) (c : Challenge)
    → find i m.challenges ≡ some c
    → c.status ≡ pending
    → now < c.expires_at
    → now' < c.expires_at
    → let r = complete_challenge now now' i s [] m in
      (r.0 ≡ (outcome s c).0) × (find i r.1.challenges ≡ some (outcome s c).1)
unfolding complete_challenge run
complete_challenge_lem now now' i s m c there waits early early' =
    let c' = record c { status = verifying } in
    rw (begins now i m c there early waits) (
      finish_verification_lem now' i s (record m { challenges = put i c' m.challenges }) c
        (find_put i c' m) waits early')

resolve-ok :
    (now : ℕ) (i : String) (m : Manager) (v : ChallengeView)
    → (resolve now i m).0 ≡ ok v
    → (c : Challenge) × (find i (resolve now i m).1.challenges ≡ some c) × (c.status ≡ completed)
unfolding resolve complete with_challenge finish
resolve-ok now i m v h = elim (Option-cases (find i m.challenges)) [
  | inl missing ↦ ground (arith, h, missing)
  | inr (c, there) ↦
      let c' = refresh now c in
      elim (Bool-cases (is_expired c'.status)) [
        | inl late ↦ ground (arith, h, there, late)
        | inr alive ↦ elim (Bool-cases (is_verifying c'.status)) [
          | inr other ↦ ground (arith, h, there, alive, other)
          | inl asked ↦ (
            finish completed c',
            ground (
              arith,
              there,
              alive,
              asked,
              find-put i i (finish completed c') m.challenges,
              eq_refl i,
            ),
            refl,
          )
        ]
      ]
]

respond_error-json : (e : ChallengeError) (v : ChallengeView) → respond_error e ≢ json v
unfolding respond_error
respond_error-json challenge_expired v h = cc h
respond_error-json challenge_cancelled v h = cc h
respond_error-json challenge_not_found v h = cc h
respond_error-json challenge_in_use v h = cc h
respond_error-json challenge_state v h = cc h
respond_error-json context_done v h = cc h

resolved-json :
    (r : Result ChallengeView × Manager) (v : ChallengeView)
    → (resolved r).0 ≡ json v
    → (r.0 ≡ ok v) × ((resolved r).1 ≡ r.1)
resolved-json (ok w, m) v h = (ground (arith, h), refl)
resolved-json (err e, m) v h = absurd (respond_error-json e v h)

-- Whatever others call on the manager while the browser is asked: the answer is a view of the
-- challenge only where the browser wants no action any more, and then the challenge is stored as
-- completed.
pub complete_challenge-json :
    (now now' : ℕ) (i : String) (s : Snapshot) (os : List Op) (m : Manager) (v : ChallengeView)
    → (complete_challenge now now' i s os m).0 ≡ json v
    → (s ≡ clear)
      × ((c : Challenge) × (find i (complete_challenge now now' i s os m).1.challenges ≡ some c)
          × (c.status ≡ completed))
unfolding complete_challenge finish_verification
complete_challenge-json now now' i s os m v h = go s (begin_verification now i m) h
  where
    go :
        (s : Snapshot) (b : Result String × Manager)
        → (begun (λ m'. finish_verification now' i s (run os m')) b).0 ≡ json v
        → (s ≡ clear)
          × ((c : Challenge) × (find i
                  (begun (λ m'. finish_verification now' i s (run os m')) b).1.challenges
                ≡ some c)
              × (c.status ≡ completed))
    go s (err e, m') h = absurd (respond_error-json e v h)
    go failed (ok x, m') h = cc h
    go (wants k) (ok x, m') h = cc h
    go clear (ok x, m') h =
        let (made, same) = resolved-json (resolve now' i (run os m')) v h in
        (
          refl,
          subst (λ y. (c : Challenge) × (find i y.challenges ≡ some c) × (c.status ≡ completed))
              (sym same) (resolve-ok now' i (run os m') v made),
        )
