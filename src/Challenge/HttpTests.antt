-- ===== src/Challenge/HttpTests.antt =====
-- Requests for one challenge, and the theorems about its endpoints at them.
use shiori_server.Prelude.{◌≤◌, ◌≡◌, refl, false, none, some, List, [], ◌∷◌, arith, All, length}
use shiori_server.Prelude.Map.{find}
use shiori_server.Challenge.Types.{login, completed, Challenge, ChallengeView, Manager}
use shiori_server.Challenge.Manager.{
  get, begin_verification, start_verification, resolve, complete, with_challenge, refresh, finish,
  view,
}
use shiori_server.Challenge.Runs.{get_op, fresh, run, apply}
use shiori_server.Challenge.Input.{
  plus, natural, InputEvent, Message, forward, valid, is_mouse, is_button,
}
use shiori_server.Challenge.Rate.{Harmless, forward_lem}
use shiori_server.Challenge.Http.{json, clear, complete_challenge, finish_verification}
use shiori_server.Challenge.Completion.{outcome, complete_challenge_lem}

abbrev waiting : Challenge
waiting = fresh 10 100 "session" (login ∷ [])

abbrev asked : Manager
asked = record { challenges = ("t", waiting) ∷ []; ttl = 100 }

complete_challenge_lem_example :
    let r = complete_challenge 20 30 "t" clear [] asked in
    (r.0 ≡ (outcome clear waiting).0) × (find "t" r.1.challenges ≡ some (outcome clear waiting).1)
complete_challenge_lem_example =
    complete_challenge_lem 20 30 "t" clear asked waiting refl refl (omega arith) (omega arith)

abbrev done_view : ChallengeView
done_view = record {
  status = completed;
  kind = waiting.kind;
  connected = false;
  created_at = 10;
  expires_at = 110;
}

-- Somebody looks at the challenge while the browser is asked.
shown_done : (complete_challenge 20 30 "t" clear (get_op 25 "t" ∷ []) asked).0 ≡ json done_view
unfolding complete_challenge finish_verification run apply get begin_verification start_verification
    resolve complete with_challenge refresh finish view
shown_done = refl

abbrev click : InputEvent
click = record {
  kind = "mousePressed";
  x = plus 10;
  y = plus 20;
  button = "left";
  delta_x = plus 0;
  delta_y = plus 0;
  key = [];
  code = [];
  text = [];
  modifiers = natural 0;
  width = natural 0;
  height = natural 0;
}

abbrev messages : List (Message 1)
messages = (5, some click) ∷ (6, none) ∷ []

forwarded : forward 1 0 0 messages ≡ click ∷ []
unfolding forward valid is_mouse is_button
forwarded = refl

forward_lem_example :
    (length (forward 1 0 0 messages) ≤ 360) × All (Harmless 1) (forward 1 0 0 messages)
forward_lem_example =
    forward_lem 1 5 0 0 messages ((omega arith, omega arith), ((omega arith, omega arith), tt))
