-- ===== src/Challenge/Refinement.antt =====
-- The manager refines the machines of its tokens: every call, seen at one token.
use shiori_server.Prelude.{
  ℕ, ◌≡◌, refl, String, Bool, true, false, not, Option, none, some, List, arith, eq_iff, str_eq,
  if◌then◌else◌, inl, inr, Option-cases, Bool-cases, ◌∙◌,
}
use shiori_server.Prelude.Map.{find, find-put, find-delete, find-keep_if}
use shiori_server.Challenge.Types.{UserActionKind, expired, Challenge, Manager, Result}
use shiori_server.Challenge.Manager.{
  finish, create, is_stale, refresh, with_challenge, get, get_session, acquire_controller,
  release_controller, begin_verification, reject_verification, resolve, cancel, expire, remove,
  read_session, take_control, start_verification, back_to_pending, complete, give_up,
}
use shiori_server.Challenge.Wait.{wait_begin, read_deadline}
use shiori_server.Challenge.Runs.{
  Op, create_op, get_op, get_session_op, acquire_op, begin_op, reject_op, resolve_op, cancel_op,
  wait_op, release_op, expire_op, remove_op, apply, advance, step, fresh, on_some, entry, token_of,
}

module _ {A : Type 0} (f : Challenge → Result A × Challenge) (now : ℕ) (k i : String)
    (m : Manager) where
  find-with_challenge :
      (h : Challenge → Challenge)
      → ((c : Challenge) → advance (λ c'. (f c').1) now c ≡ h c)
      → find i (with_challenge now k f m).1.challenges
        ≡ (if str_eq k i then on_some h (find i m.challenges) else find i m.challenges)
  unfolding with_challenge
  find-with_challenge h same = elim (Option-cases (find k m.challenges)) [
    | inl missing ↦ ground (arith, eq_iff k i)
    | inr (c, found) ↦ ground (
      arith,
      eq_iff k i,
      same c,
      find-put k i (refresh now c) m.challenges,
      find-put k i (f (refresh now c)).1 m.challenges,
    )
  ]

module _ (now : ℕ) (k : String) (c : Challenge) where
  step_read : advance (λ c'. (read_session c').1) now c ≡ step (get_session_op now k) c
  unfolding step read_session refresh
  step_read = ground arith

  step_acquire : advance (λ c'. (take_control c').1) now c ≡ step (acquire_op now k) c
  unfolding step take_control refresh
  step_acquire = ground arith

  step_begin : advance (λ c'. (start_verification c').1) now c ≡ step (begin_op now k) c
  unfolding step start_verification refresh
  step_begin = ground arith

  step_reject : advance (λ c'. (back_to_pending c').1) now c ≡ step (reject_op now k) c
  unfolding step back_to_pending refresh
  step_reject = ground arith

  step_resolve : advance (λ c'. (complete c').1) now c ≡ step (resolve_op now k) c
  unfolding step complete refresh
  step_resolve = ground arith

  step_cancel : advance (λ c'. (give_up c').1) now c ≡ step (cancel_op now k) c
  unfolding step give_up refresh
  step_cancel = ground arith

  step_wait : advance (λ c'. (read_deadline c').1) now c ≡ step (wait_op now k) c
  unfolding step read_deadline refresh
  step_wait = ground arith

find-create :
    (now : ℕ) (k i session : String) (kinds : List UserActionKind) (m : Manager)
    → find i (create now k session kinds m).1.challenges
      ≡ entry (create_op now k session kinds) i m.ttl (find i m.challenges)
unfolding create entry
find-create now k i session kinds m =
    find-put k i _ _
    ∙ ground (arith, find-keep_if (λ _ c. not (is_stale now m.ttl c)) i m.challenges)

find-get :
    (now : ℕ) (k i : String) (m : Manager)
    → find i (get now k m).1.challenges ≡ entry (get_op now k) i m.ttl (find i m.challenges)
unfolding get entry step
find-get now k i m = elim (Option-cases (find k m.challenges)) [
  | inl missing ↦ ground (arith, eq_iff k i)
  | inr (c, found) ↦ ground (arith, eq_iff k i, find-put k i (refresh now c) m.challenges)
]

find-release :
    (k i : String) (m : Manager)
    → find i (release_controller k m).challenges
      ≡ entry (release_op k) i m.ttl (find i m.challenges)
unfolding release_controller entry step
find-release k i m = elim (Option-cases (find k m.challenges)) [
  | inl missing ↦ ground (arith, eq_iff k i)
  | inr (c, found) ↦
      ground (arith, eq_iff k i, find-put k i (record c { connected = false }) m.challenges)
]

find-expire :
    (k i : String) (m : Manager)
    → find i (expire k m).challenges ≡ entry (expire_op k) i m.ttl (find i m.challenges)
unfolding expire entry step
find-expire k i m = elim (Option-cases (find k m.challenges)) [
  | inl missing ↦ ground (arith, eq_iff k i)
  | inr (c, found) ↦ ground (arith, eq_iff k i, find-put k i (finish expired c) m.challenges)
]

find-remove :
    (k i : String) (m : Manager)
    → find i (remove k m).1.challenges ≡ entry (remove_op k) i m.ttl (find i m.challenges)
unfolding remove entry
find-remove k i m = elim (Option-cases (find k m.challenges)) [
  | inl missing ↦ ground (arith, eq_iff k i)
  | inr (c, found) ↦ ground (arith, eq_iff k i, find-delete k i m.challenges)
]

ttl-apply : (o : Op) (m : Manager) → (apply o m).ttl ≡ m.ttl
unfolding apply create get get_session acquire_controller release_controller begin_verification
    reject_verification resolve cancel expire remove wait_begin with_challenge
ttl-apply (create_op now k session kinds) m = refl
ttl-apply o m = ground arith

-- The manager keeps one independent machine per token: a call makes of the challenge of a token
-- exactly what that token's machine says, which depends on no other challenge.
pub find-apply :
    (o : Op) (i : String) (m : Manager)
    → find i (apply o m).challenges ≡ entry o i m.ttl (find i m.challenges)
unfolding apply entry get_session with_challenge acquire_controller begin_verification
    reject_verification resolve cancel wait_begin
find-apply (create_op now k session kinds) i m = find-create now k i session kinds m
find-apply (get_op now k) i m = find-get now k i m
find-apply (get_session_op now k) i m =
    find-with_challenge read_session now k i m _ (step_read now k)
find-apply (acquire_op now k) i m =
    find-with_challenge take_control now k i m _ (step_acquire now k)
find-apply (begin_op now k) i m =
    find-with_challenge start_verification now k i m _ (step_begin now k)
find-apply (reject_op now k) i m =
    find-with_challenge back_to_pending now k i m _ (step_reject now k)
find-apply (resolve_op now k) i m = find-with_challenge complete now k i m _ (step_resolve now k)
find-apply (cancel_op now k) i m = find-with_challenge give_up now k i m _ (step_cancel now k)
find-apply (wait_op now k) i m = find-with_challenge read_deadline now k i m _ (step_wait now k)
find-apply (release_op k) i m = find-release k i m
find-apply (expire_op k) i m = find-expire k i m
find-apply (remove_op k) i m = find-remove k i m

-- The call creates a challenge under the token `i`.
abbrev pub creates : String → Op → Bool
creates i (create_op now k session kinds) = str_eq k i
creates i _ = false

-- What a call can make of the challenge of a token: nothing, its absence, one step of its machine,
-- or a new one.
pub data Fate (o : Op) (i : String) (e r : Option Challenge) : Type 0 where
  same : r ≡ e → Fate o i e r
  gone : r ≡ none → Fate o i e r
  stepped :
      (c : Challenge)
      → e ≡ some c
      → r ≡ some (step o c)
      → str_eq (token_of o) i ≡ true
      → Fate o i e r
  created :
      (now ttl : ℕ) (session : String) (kinds : List UserActionKind)
      → creates i o ≡ true
      → r ≡ some (fresh now ttl session kinds)
      → Fate o i e r

stepped_or_same :
    (o : Op) (i : String) (e : Option Challenge)
    → Fate o i e (if str_eq (token_of o) i then on_some (step o) e else e)
stepped_or_same o i none = same (ground arith)
stepped_or_same o i (some c) = elim (Bool-cases (str_eq (token_of o) i)) [
  | inl here ↦ stepped c refl (rw here refl) here
  | inr other ↦ same (rw other refl)
]

pub entry-Fate :
    (o : Op) (i : String) (ttl : ℕ) (e : Option Challenge) → Fate o i e (entry o i ttl e)
unfolding entry
entry-Fate (create_op now k session kinds) i ttl none = elim (Bool-cases (str_eq k i)) [
  | inl here ↦ created now ttl session kinds here (rw here refl)
  | inr other ↦ same (rw other refl)
]
entry-Fate (create_op now k session kinds) i ttl (some c) = elim (Bool-cases (str_eq k i)) [
  | inl here ↦ created now ttl session kinds here (rw here refl)
  | inr other ↦ elim (Bool-cases (is_stale now ttl c)) [
    | inl stale ↦ gone (ground arith)
    | inr kept ↦ same (ground arith)
  ]
]
entry-Fate (remove_op k) i ttl e = elim (Bool-cases (str_eq k i)) [
  | inl here ↦ gone (rw here refl)
  | inr other ↦ same (rw other refl)
]
entry-Fate o i ttl e = stepped_or_same o i e
