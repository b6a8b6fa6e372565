-- ===== src/Challenge/Tests.antt =====
-- A short life of one challenge, and the theorems about the challenge manager at it.
use shiori_server.Prelude.{◌≡◌, refl, true, none, some, List, [], ◌∷◌}
use shiori_server.Prelude.Map.{find}
use shiori_server.Challenge.Types.{
  login, completed, Challenge, ChallengeError, Manager, ok, err, challenge_expired,
}
use shiori_server.Challenge.Manager.{
  create, acquire_controller, begin_verification, reject_verification, resolve, get_session, get,
  with_challenge, refresh,
}
use shiori_server.Challenge.Runs.{
  Op, create_op, acquire_op, begin_op, reject_op, resolve_op, apply, run, entry, fresh,
}
use shiori_server.Challenge.Refinement.{find-apply}
use shiori_server.Challenge.Invariant.{IsSound}
use shiori_server.Challenge.Diagram.{verified_then_resolved, completed_needs_verification}
use shiori_server.Challenge.Control.{controller_exclusive}
use shiori_server.Challenge.Wait.{closed, wait_end}

abbrev empty : Manager
empty = record { challenges = []; ttl = 100 }

abbrev made : Challenge
made = fresh 10 100 "session" (login ∷ [])

abbrev one : Manager
one = record { challenges = ("t", made) ∷ []; ttl = 100 }

abbrev solved : Challenge
solved = record made { status = completed; done = true }

abbrev over : Manager
over = record { challenges = ("t", solved) ∷ []; ttl = 100 }

made-IsSound : IsSound made
made-IsSound = record { closed = refl; controlled = λ e. cc }

solved-IsSound : IsSound solved
solved-IsSound = record { closed = refl; controlled = λ e. cc }

find-apply_example :
    find "u" (apply (begin_op 20 "t") one).challenges ≡ entry (begin_op 20 "t") "u" 100 none
find-apply_example = find-apply (begin_op 20 "t") "u" one

abbrev a_life : List Op
a_life =
    create_op 10 "t" "session" (login ∷ [])
    ∷ acquire_op 11 "t"
    ∷ begin_op 12 "t"
    ∷ reject_op 13 "t"
    ∷ begin_op 14 "t"
    ∷ resolve_op 15 "t"
    ∷ []

a_life_completes : find "t" (run a_life empty).challenges ≡ some solved
unfolding run apply create acquire_controller begin_verification reject_verification resolve
    with_challenge
a_life_completes = refl

completed_needs_verification_example : verified_then_resolved "t" a_life ≡ true
completed_needs_verification_example =
    completed_needs_verification a_life "t" empty solved refl a_life_completes refl

acquire_works : (acquire_controller 20 "t" one).0 ≡ ok "session"
unfolding acquire_controller with_challenge
acquire_works = refl

controller_exclusive_example :
    (e : ChallengeError) × ((acquire_controller 40 "t"
        (run (begin_op 21 "t" ∷ reject_op 22 "t" ∷ []) (acquire_controller 20 "t" one).1)).0
      ≡ err e)
controller_exclusive_example =
    controller_exclusive 20 40 "t" "session" (begin_op 21 "t" ∷ reject_op 22 "t" ∷ []) one
      acquire_works (refl, (refl, tt))

late_session : (get_session 110 "t" one).0 ≡ err challenge_expired
unfolding get_session with_challenge
late_session = refl

solved_wakes : (wait_end closed 20 "t" over).0 ≡ ok tt
unfolding wait_end get refresh
solved_wakes = refl
