-- ===== src/Challenge/Invariant.antt =====
-- What holds of every challenge between two calls.
use shiori_server.Prelude.{
  ℕ, ◌≡◌, refl, String, true, not, Option, none, some, List, [], ◌∷◌, arith,
}
use shiori_server.Prelude.Map.{find}
use shiori_server.Challenge.Types.{UserActionKind, Challenge, Manager, is_active}
use shiori_server.Challenge.Manager.{finish, refresh}
use shiori_server.Challenge.Refinement.{find-apply, Fate, same, gone, stepped, created, entry-Fate}
use shiori_server.Challenge.Runs.{Op, create_op, apply, run, step, fresh}

-- The channel of a challenge is closed exactly when the challenge is no longer active, and a
-- controller is connected to an active challenge only.
pub record IsSound (c : Challenge) : Type 0 where
  pub closed : c.done ≡ not (is_active c.status)
  pub controlled : c.connected ≡ true → is_active c.status ≡ true

abbrev pub SoundEntry : Option Challenge → Type 0
SoundEntry none = Unit
SoundEntry (some c) = IsSound c

pub step-IsSound : (o : Op) (c : Challenge) → IsSound c → IsSound (step o c)
unfolding step refresh finish
step-IsSound (create_op now k session kinds) c v = v
step-IsSound o c v = ground arith

fresh-IsSound :
    (now ttl : ℕ) (session : String) (kinds : List UserActionKind)
    → IsSound (fresh now ttl session kinds)
fresh-IsSound now ttl session kinds = record { closed = refl; controlled = λ e. cc }

Fate-Sound :
    (o : Op) (i : String) (e r : Option Challenge) → Fate o i e r → SoundEntry e → SoundEntry r
Fate-Sound o i e r (same q) v = rw q v
Fate-Sound o i e r (gone q) v = rw q tt
Fate-Sound o i e r (stepped c before after _) v = rw after (step-IsSound o c (rw before at v))
Fate-Sound o i e r (created now ttl session kinds _ q) v =
    rw q (fresh-IsSound now ttl session kinds)

-- Whatever calls are made on the manager, if the challenge of a token is sound before them, or the
-- token has none, then so it is after them. A sound challenge has its channel closed exactly when it
-- is no longer active, and only an active one has a controller.
pub run-IsSound :
    (os : List Op) (m : Manager) (i : String)
    → SoundEntry (find i m.challenges)
    → SoundEntry (find i (run os m).challenges)
unfolding run
run-IsSound [] m i v = v
run-IsSound (o ∷ os) m i v =
    run-IsSound os (apply o m) i
      (rw (find-apply o i m) (Fate-Sound o i _ _ (entry-Fate o i m.ttl (find i m.challenges)) v))
