-- ===== src/Queue/Table/Laws.antt =====
-- What an UPDATE of the table keeps, and what a SELECT by id reads after it.
use shiori_server.Prelude.{
  ℕ, suc, ◌<◌, ◌≡◌, refl, ◌≢◌, String, Bool, true, false, some, List, [], ◌∷◌, ◌++◌, arith, All, In,
  eq_iff, inl, inr, if◌then◌else◌, sym, ◌==◌, ◌&&◌, none, Bool-cases,
}
use shiori_server.Queue.Table.{Row, update_where, affected, find_id, has_key}
use mathlib.Core.Option

-- No two rows share an id or an idempotency key.
abbrev pub Distinct : List Row → Type 0
Distinct [] = Unit
Distinct (r ∷ rs) =
    All (λ q. q.id ≢ r.id) rs × All (λ q. q.idempotency_key ≢ r.idempotency_key) rs × Distinct rs

-- An update that keeps a row's id and key.
abbrev pub KeepsKeys : (Row → Row) → Type 0
KeepsKeys f = (r : Row) → ((f r).id ≡ r.id) × ((f r).idempotency_key ≡ r.idempotency_key)

module _ {A : Type 0} (P : A → Type 0) where
  pub All-append : (xs ys : List A) → All P xs → All P ys → All P (xs ++ ys)
  All-append [] ys h k = k
  All-append (x ∷ xs) ys h k = (h.0, All-append xs ys h.1 k)

  pub All-In : (xs : List A) (a : A) → All P xs → In a xs → P a
  All-In [] a h m = absurd m
  All-In (x ∷ xs) a h (inl e) = subst_of e h.0
    where
      subst_of : a ≡ x → P x → P a
      subst_of e p = mathlib.Core.Path.subst P (sym e) p
  All-In (x ∷ xs) a h (inr m) = All-In xs a h.1 m

-- Where the update keeps `P` on the rows that the test admits, it keeps `All P`.
pub All-update_where :
    (P : Row → Type 0) (test : Row → Bool) (f : Row → Row) (rs : List Row)
    → ((r : Row) → test r ≡ true → P r → P (f r))
    → All P rs
    → All P (update_where test f rs)
All-update_where P test f [] keep h = tt
All-update_where P test f (r ∷ rs) keep h =
    (one (test r) refl, All-update_where P test f rs keep h.1)
  where
    one : (b : Bool) → test r ≡ b → P (if b then f r else r)
    one true e = keep r e h.0
    one false e = h.0

module _ (test : Row → Bool) (f : Row → Row) (keeps : KeepsKeys f) where
  same_id : (r : Row) → (if test r then f r else r).id ≡ r.id
  same_id r = ground (arith, keeps r)

  same_key : (r : Row) → (if test r then f r else r).idempotency_key ≡ r.idempotency_key
  same_key r = ground (arith, keeps r)

  pub Distinct-update_where : (rs : List Row) → Distinct rs → Distinct (update_where test f rs)
  Distinct-update_where [] h = tt
  Distinct-update_where (r ∷ rs) h = (
    All-update_where (λ q. q.id ≢ (if test r then f r else r).id) test f rs
        (λ q _ p. ground (arith, keeps q)) (rw (same_id r) h.0),
    All-update_where (λ q. q.idempotency_key ≢ (if test r then f r else r).idempotency_key) test f
        rs (λ q _ p. ground (arith, keeps q)) (rw (same_key r) h.1),
    Distinct-update_where rs h.2,
  )

  pub find_id-update_where :
      (i : ℕ) (rs : List Row)
      → find_id i (update_where test f rs)
        ≡ Option.map (λ r. if test r then f r else r) (find_id i rs)
  find_id-update_where i [] = refl
  find_id-update_where i (r ∷ rs) = ground (arith, keeps r, find_id-update_where i rs)

pub All-fresh_weaken : (n : ℕ) (rs : List Row) → All (λ r. r.id < n) rs → All (λ r. r.id < suc n) rs
All-fresh_weaken n [] h = tt
All-fresh_weaken n (r ∷ rs) h = (omega arith, All-fresh_weaken n rs h.1)

pub has_key-NoKey :
    (k : String) (rs : List Row) → has_key k rs ≡ false → All (λ r. r.idempotency_key ≢ k) rs
has_key-NoKey k [] h = tt
has_key-NoKey k (r ∷ rs) h =
    (ground (arith, eq_iff r.idempotency_key k), has_key-NoKey k rs (ground arith))

pub Distinct-append_one :
    (r : Row) (rs : List Row)
    → All (λ q. q.id < r.id) rs
    → All (λ q. q.idempotency_key ≢ r.idempotency_key) rs
    → Distinct rs
    → Distinct (rs ++ r ∷ [])
Distinct-append_one r [] f k h = (tt, tt, tt)
Distinct-append_one r (q ∷ rs) f k h = (
  All-append (λ p. p.id ≢ q.id) rs (r ∷ []) h.0 (omega arith, tt),
  All-append (λ p. p.idempotency_key ≢ q.idempotency_key) rs (r ∷ []) h.1 ((λ e. k.0 (sym e)), tt),
  Distinct-append_one r rs f.1 k.1 h.2,
)

pub find_id-append :
    (i : ℕ) (rs qs : List Row) (r : Row) → find_id i rs ≡ some r → find_id i (rs ++ qs) ≡ some r
find_id-append i [] qs r h = cc
find_id-append i (q ∷ rs) qs r h = ground (arith, find_id-append i rs qs r)

-- With distinct ids a row is what its id finds.
pub find_id-In : (rs : List Row) (r : Row) → Distinct rs → In r rs → find_id r.id rs ≡ some r
find_id-In [] r h m = absurd m
find_id-In (q ∷ rs) r h (inl e) = ground arith
find_id-In (q ∷ rs) r h (inr m) =
    ground (arith, All-In (λ p. p.id ≢ q.id) rs r h.0 m, find_id-In rs r h.2 m)

module _ (i : ℕ) (guard : Row → Bool) where
  affected_other :
      (rs : List Row) → All (λ q. q.id ≢ i) rs → affected (λ q. q.id == i && guard q) rs ≡ 0
  affected_other [] h = refl
  affected_other (q ∷ rs) h = ground (arith, h.0, affected_other rs h.1)

  pub affected_missing :
      (rs : List Row) → find_id i rs ≡ none → affected (λ q. q.id == i && guard q) rs ≡ 0
  affected_missing [] h = refl
  affected_missing (q ∷ rs) h = ground (arith, affected_missing rs)

  -- With distinct ids an UPDATE by id touches one row at most.
  pub affected_found :
      (rs : List Row) (r : Row)
      → Distinct rs
      → find_id i rs ≡ some r
      → affected (λ q. q.id == i && guard q) rs ≡ (if guard r then 1 else 0)
  affected_found [] r d h = cc
  affected_found (q ∷ rs) r d h = elim (Bool-cases (q.id == i)) [
    | inl same ↦ let e : q.id ≡ i = ground arith in ground (arith, affected_other rs (rw (← e) d.0))
    | inr other ↦ ground (arith, affected_found rs r d.2)
  ]
