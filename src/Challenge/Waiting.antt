-- ===== src/Challenge/Waiting.antt =====
-- What Wait returns, and that nobody waits for ever.
use shiori_server.Prelude.{
  eq_refl, ℕ, ◌≡◌, refl, String, true, false, Option, none, some, arith, eq_iff, if◌then◌else◌, inl,
  inr, ◌⊎◌, Option-cases,
}
use shiori_server.Prelude.Map.{find}
use shiori_server.Challenge.Types.{completed, cancelled, Challenge, Manager, ok, is_active}
use shiori_server.Challenge.Manager.{finish, refresh, get, remove, view}
use shiori_server.Challenge.Refinement.{find-apply}
use shiori_server.Challenge.Runs.{get_op, cancel_op, expire_op, apply, step, entry}
use shiori_server.Challenge.Invariant.{IsSound, SoundEntry}
use shiori_server.Prelude.Map.{find-delete}
use shiori_server.Challenge.Wait.{Wake, context, timer, closed, wait_end}

-- No challenge, or one that is not active any more.
abbrev pub IsOver : Option Challenge → Type 0
IsOver none = Unit
IsOver (some c) = is_active c.status ≡ false

-- The channel that a waiter of this challenge holds is closed.
abbrev pub IsClosed : Option Challenge → Type 0
IsClosed none = Unit
IsClosed (some c) = c.done ≡ true

IsOver-cancel :
    (now : ℕ) (i : String) (ttl : ℕ) (e : Option Challenge)
    → IsOver (entry (cancel_op now i) i ttl e)
unfolding entry step refresh finish
IsOver-cancel now i ttl none = rw (eq_refl i) tt
IsOver-cancel now i ttl (some c) = rw (eq_refl i) (ground arith)

IsOver-expire : (i : String) (ttl : ℕ) (e : Option Challenge) → IsOver (entry (expire_op i) i ttl e)
unfolding entry step refresh finish
IsOver-expire i ttl none = rw (eq_refl i) tt
IsOver-expire i ttl (some c) = rw (eq_refl i) (ground arith)

IsOver-get :
    (now : ℕ) (i : String) (ttl : ℕ) (e : Option Challenge)
    → SoundEntry e
    → IsClosed e
    → IsOver (entry (get_op now i) i ttl e)
unfolding entry step refresh finish
IsOver-get now i ttl none v h = rw (eq_refl i) tt
IsOver-get now i ttl (some c) v h = rw (eq_refl i) (ground arith)

-- Wait returns nil only after its channel is closed on a challenge that is completed.
pub wait_ok :
    (w : Wake) (now : ℕ) (i : String) (m : Manager)
    → (wait_end w now i m).0 ≡ ok tt
    → (w ≡ closed) × ((c : Challenge) × (find i m.challenges ≡ some c) × (c.status ≡ completed))
unfolding wait_end get view refresh finish
wait_ok context now i m h = cc
wait_ok timer now i m h = cc
wait_ok closed now i m h = elim (Option-cases (find i m.challenges)) [
  | inl missing ↦ absurd (ground arith)
  | inr (c, found) ↦ (refl, (c, found, ground arith))
]

-- However Wait ends (its context is done, its timer fires, or its channel is closed), the challenge
-- of its token is gone or is not active any more.
pub wait_settles :
    (w : Wake) (now : ℕ) (i : String) (m : Manager)
    → SoundEntry (find i m.challenges)
    → (w ≡ closed) × IsClosed (find i m.challenges) ⊎ (w ≡ context) ⊎ (w ≡ timer)
    → IsOver (find i (wait_end w now i m).1.challenges)
unfolding wait_end apply
wait_settles context now i m v h =
    rw (find-apply (cancel_op now i) i m) (IsOver-cancel now i m.ttl (find i m.challenges))
wait_settles timer now i m v h =
    rw (find-apply (expire_op i) i m) (IsOver-expire i m.ttl (find i m.challenges))
wait_settles closed now i m v (inl (_, h)) =
    rw (find-apply (get_op now i) i m) (IsOver-get now i m.ttl (find i m.challenges) v h)
wait_settles closed now i m v (inr (inl h)) = cc
wait_settles closed now i m v (inr (inr h)) = cc

-- Remove forgets the token, and leaves no waiter behind: the challenge that a waiter still holds has
-- its channel closed and is not active.
pub remove_releases :
    (i : String) (m : Manager) (c : Challenge)
    → find i m.challenges ≡ some c
    → IsSound c
    → (find i (remove i m).1.challenges ≡ none)
      × ((c' : Challenge) × ((remove i m).0 ≡ some c')
          × (c'.done ≡ true)
          × (is_active c'.status ≡ false))
unfolding remove finish
remove_releases i m c found v = (
  ground (arith, eq_iff i i, find-delete i i m.challenges),
  (if is_active c.status then finish cancelled c else c, ground arith, ground arith, ground arith),
)
