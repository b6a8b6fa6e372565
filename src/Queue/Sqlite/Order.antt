-- ===== src/Queue/Sqlite/Order.antt =====
-- The subquery of Dequeue: which rows are due, and which of them ORDER BY … LIMIT 1 picks.
use shiori_server.Prelude.{
  ℕ, ◌+◌, ◌≤◌, ◌<◌, ◌≡◌, refl, String, Bool, true, false, none, some, List, [], ◌∷◌, arith, All, In,
  inl, inr, ◌⊎◌, Bool-cases, Option-cases, sym, eq_iff, str_eq,
}
use shiori_server.Queue.Types.{queued, running, is_queued}
use shiori_server.Queue.Table.{Row, Call, has_type}
use shiori_server.Queue.Table.Laws.{All-In}
use shiori_server.Queue.Sqlite.{pick, eligible, better, comes_first}

-- `q` does not come before `r` by priority, and by schedule among equals.
abbrev pub NotBefore : Row → Row → Type 0
NotBefore r q =
    (q.priority < r.priority) ⊎ ((q.priority ≡ r.priority) × (r.scheduled_at ≤ q.scheduled_at))

-- `r` is the row that the statement's WHERE and ORDER BY ask for.
pub record IsBest (c : Call) (types : List String) (rows : List Row) (r : Row) : Type 0 where
  pub present : In r rows
  pub ready : eligible c.now types r ≡ true
  pub first : All (λ q. eligible c.now types q ≡ true → NotBefore r q) rows

NotBefore-refl : (r : Row) → NotBefore r r
NotBefore-refl r = inr (refl, omega arith)

NotBefore-trans : (a b q : Row) → NotBefore a b → NotBefore b q → NotBefore a q
NotBefore-trans a b q h k = ground arith

better-some :
    (prefer : Row → Row → Bool) (r b : Row)
    → ((better prefer r (some b) ≡ r) × NotBefore r b)
      ⊎ ((better prefer r (some b) ≡ b) × NotBefore b r)
unfolding better comes_first
better-some prefer r b = ground arith

weaken :
    (c : Call) (types : List String) (a b : Row) (rows : List Row)
    → NotBefore a b
    → All (λ q. eligible c.now types q ≡ true → NotBefore b q) rows
    → All (λ q. eligible c.now types q ≡ true → NotBefore a q) rows
weaken c types a b [] h k = tt
weaken c types a b (q ∷ rows) h k =
    ((λ e. NotBefore-trans a b q h (k.0 e)), weaken c types a b rows h k.1)

pick-none :
    (c : Call) (types : List String) (rows : List Row)
    → pick c types rows ≡ none
    → All (λ q. eligible c.now types q ≡ false) rows
unfolding pick
pick-none c types [] h = tt
pick-none c types (q ∷ rows) h = elim (Bool-cases (eligible c.now types q)) [
  | inl e ↦ absurd (ground arith)
  | inr e ↦ (e, pick-none c types rows (ground arith))
]

vacuous :
    (c : Call) (types : List String) (a : Row) (rows : List Row)
    → All (λ q. eligible c.now types q ≡ false) rows
    → All (λ q. eligible c.now types q ≡ true → NotBefore a q) rows
vacuous c types a [] h = tt
vacuous c types a (q ∷ rows) h = ((λ e. cc), vacuous c types a rows h.1)

better-none : (prefer : Row → Row → Bool) (r : Row) → better prefer r none ≡ r
unfolding better
better-none prefer r = refl

pub pick-IsBest :
    (c : Call) (types : List String) (rows : List Row) (r : Row)
    → pick c types rows ≡ some r
    → IsBest c types rows r
unfolding pick
pick-IsBest c types [] r h = cc
pick-IsBest c types (q ∷ rows) r h = elim (Bool-cases (eligible c.now types q)) [
  | inr e ↦
      let best = pick-IsBest c types rows r (ground arith) in
      record { present = inr best.present; ready = best.ready; first = ((λ e'. cc), best.first) }
  | inl e ↦ elim (Option-cases (pick c types rows)) [
    | inl empty ↦
        let s : r ≡ q = ground (arith, better-none c.prefer q) in
        rw s (record {
          present = inl refl;
          ready = e;
          first = ((λ _. NotBefore-refl q), vacuous c types q rows (pick-none c types rows empty));
        })
    | inr (b, found) ↦
        let best = pick-IsBest c types rows b found in
        elim (better-some c.prefer q b) [
          | inl (k, above) ↦
              let s : r ≡ q = ground arith in
              rw s (record {
                present = inl refl;
                ready = e;
                first = ((λ _. NotBefore-refl q), weaken c types q b rows above best.first);
              })
          | inr (k, above) ↦
              let s : r ≡ b = ground arith in
              rw s (record {
                present = inr best.present;
                ready = best.ready;
                first = ((λ _. above), best.first);
              })
        ]
  ]
]

pub pick-some :
    (c : Call) (types : List String) (rows : List Row) (r : Row)
    → In r rows
    → eligible c.now types r ≡ true
    → (b : Row) × (pick c types rows ≡ some b)
pick-some c types rows r m e = elim (Option-cases (pick c types rows)) [
  | inr found ↦ found
  | inl empty ↦
      cc (All-In (λ q. eligible c.now types q ≡ false) rows r (pick-none c types rows empty) m, e)
]

-- A row that may be handed out: of a wanted type, and queued and due, or running with a heartbeat
-- more than five minutes old.
abbrev pub IsDue : ℕ → List String → Row → Type 0
IsDue now types r =
    In r.job_type types
    × (((r.status ≡ queued) × (r.scheduled_at ≤ now))
        ⊎ ((r.status ≡ running) × ((h : ℕ) × (r.heartbeat_at ≡ some h) × (h + 300 < now))))

has_type-In : (types : List String) (s : String) → has_type types s ≡ true → In s types
has_type-In [] s h = cc
has_type-In (x ∷ xs) s h = elim (Bool-cases (str_eq x s)) [
  | inl e ↦ inl (sym ((eq_iff x s).0 e))
  | inr e ↦ inr (has_type-In xs s (ground arith))
]

In-has_type : (types : List String) (s : String) → In s types → has_type types s ≡ true
In-has_type [] s h = absurd h
In-has_type (x ∷ xs) s (inl e) = ground (arith, (eq_iff x s).1 (sym e))
In-has_type (x ∷ xs) s (inr m) = ground (arith, In-has_type xs s m)

pub eligible-IsDue :
    (now : ℕ) (types : List String) (r : Row) → eligible now types r ≡ true → IsDue now types r
unfolding eligible
eligible-IsDue now types r h = elim (Option-cases r.heartbeat_at) [
  | inl e ↦ (has_type-In types r.job_type (ground arith), inl (ground arith, ground arith))
  | inr (b, e) ↦ elim (Bool-cases (is_queued r.status)) [
    | inl q ↦ (has_type-In types r.job_type (ground arith), inl (ground arith, ground arith))
    | inr q ↦
        (has_type-In types r.job_type (ground arith), inr (ground arith, (b, e, ground arith)))
  ]
]

pub IsDue-eligible :
    (now : ℕ) (types : List String) (r : Row) → IsDue now types r → eligible now types r ≡ true
unfolding eligible
IsDue-eligible now types r (m, inl (q, d)) = ground (arith, In-has_type types r.job_type m)
IsDue-eligible now types r (m, inr (q, (h, e, d))) = ground (arith, In-has_type types r.job_type m)
