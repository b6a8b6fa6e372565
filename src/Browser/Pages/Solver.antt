-- ===== src/Browser/Pages/Solver.antt =====
-- internal/platform/browser/chromedp/provider.go: the calls that Snapshot makes of FlareSolverr.
use shiori_server.Prelude.{
  ℕ, ◌+◌, ◌≤◌, ◌≡◌, refl, String, Bool, not, ◌&&◌, true, false, Option, none, some, List, [], ◌∷◌,
  arith, inl, inr, if◌then◌else◌, Bool-cases,
}
use shiori_server.Browser.Pages.{
  RenderedPage, Texts, is_cloudflare_challenge, classify_user_action, PageSession, Solution, View,
  PageShot, is_solvable, waited_page, should_use_solver, with_solution, shown_page, shot_of,
  calls_solver, take_snapshot, rendered_snapshot, stored_shot,
}

-- Whether a snapshot calls the solver.
abbrev pub asks_solver : Texts → PageSession → View → Bool
asks_solver t s v = s.chromium && not v.cancelled && calls_solver t s v

-- The solver's calls over the snapshots of a session.
abbrev pub solver_calls : Texts → PageSession → List View → ℕ
solver_calls t s [] = 0
solver_calls t s (v ∷ vs) =
    (if asks_solver t s v then 1 else 0) + solver_calls t (take_snapshot t s v).0 vs

-- How often the session may still call it.
abbrev pub calls_left : PageSession → ℕ
calls_left s = if s.solver_attempted then 0 else 1

with_solution_attempted :
    (t : Texts) (s : PageSession) (o : Option Solution) (p q : Option RenderedPage)
    → (with_solution t s o p q).0.solver_attempted ≡ true
with_solution_attempted t s none p q = refl
with_solution_attempted t s (some x) p q = refl

rendered_calls :
    (t : Texts) (s : PageSession) (v : View)
    → (if calls_solver t s v then 1 else 0) + calls_left (rendered_snapshot t s v).0 ≤ calls_left s
rendered_calls t s v = elim (Bool-cases (calls_solver t s v)) [
  | inl e ↦
      let fresh : s.solver_attempted ≡ false = ground (arith, e) in
      rw
        (
          e,
          with_solution_attempted t s v.solution (waited_page t s v.first v.ticks) v.second,
          fresh,
        )
        (omega arith)
  | inr e ↦ rw e (omega arith)
]

snapshot_calls :
    (t : Texts) (s : PageSession) (v : View)
    → (if asks_solver t s v then 1 else 0) + calls_left (take_snapshot t s v).0 ≤ calls_left s
unfolding take_snapshot
snapshot_calls t s v = elim (Bool-cases s.chromium) [
  | inl c ↦ elim (Bool-cases v.cancelled) [ inl x ↦ rw (c, x) (omega arith) | inr x ↦ go c x ]
  | inr c ↦ rw c (omega arith)
]
  where
    go :
        s.chromium ≡ true
        → v.cancelled ≡ false
        → (if s.chromium && not v.cancelled && calls_solver t s v then 1 else 0)
            + calls_left
                (if◌then◌else◌ {A = PageSession × Option PageShot}
                  (not s.chromium)
                  (s, some (stored_shot t s))
                  (if v.cancelled then (s, none) else rendered_snapshot t s v)).0
          ≤ calls_left s
    go c x = ground (arith, c, x, rendered_calls t s v)

-- FlareSolverr is asked once for a session at most, however often its page is captured, and not at
-- all where Navigate asked it already.
pub solver_calls_lem :
    (t : Texts) (s : PageSession) (views : List View) → solver_calls t s views ≤ calls_left s
solver_calls_lem t s [] = omega arith
solver_calls_lem t s (v ∷ vs) =
    omega (arith, snapshot_calls t s v, solver_calls_lem t (take_snapshot t s v).0 vs)

solvable-shown :
    (t : Texts) (s : PageSession) (p : RenderedPage) (u : String)
    → is_solvable (classify_user_action t (shown_page t s p) u)
      ≡ is_solvable (classify_user_action t p u)
unfolding classify_user_action is_cloudflare_challenge
solvable-shown t s p u = ground arith

shot-solvable :
    (t : Texts) (s : PageSession) (state_read : Bool) (o : Option RenderedPage) (r : PageShot)
    → shot_of t s state_read o ≡ some r
    → is_solvable r.action_kind ≡ true
    → should_use_solver t s o ≡ true
shot-solvable t s state_read none r h k = refl
shot-solvable t s state_read (some p) r h k =
    ground (arith, h, k, solvable-shown t s p s.requested_url)

rendered_tries_solver :
    (t : Texts) (s : PageSession) (v : View) (r : PageShot)
    → (rendered_snapshot t s v).1 ≡ some r
    → is_solvable r.action_kind ≡ true
    → (rendered_snapshot t s v).0.solver_attempted ≡ true
rendered_tries_solver t s v r h k = elim (Bool-cases (calls_solver t s v)) [
  | inl e ↦ rw e (with_solution_attempted t s v.solution (waited_page t s v.first v.ticks) v.second)
  | inr e ↦
      let same : shot_of t s v.state_read (waited_page t s v.first v.ticks) ≡ some r =
        ground (arith, e, h) in
      let wanted = shot-solvable t s v.state_read (waited_page t s v.first v.ticks) r same k in
      ground (arith, e, wanted)
]

-- No challenge and no block is handed to a person before FlareSolverr was asked: where a snapshot
-- shows one, the session's solver has been tried.
pub snapshot_tries_solver :
    (t : Texts) (s : PageSession) (v : View) (r : PageShot)
    → (take_snapshot t s v).1 ≡ some r
    → is_solvable r.action_kind ≡ true
    → (take_snapshot t s v).0.solver_attempted ≡ true
unfolding take_snapshot
snapshot_tries_solver t s v r h k = go s.chromium v.cancelled h
  where
    go :
        (c x : Bool)
        → (if◌then◌else◌ {A = PageSession × Option PageShot}
            (not c)
            (s, some (stored_shot t s))
            (if x then (s, none) else rendered_snapshot t s v)).1
          ≡ some r
        → (if◌then◌else◌ {A = PageSession × Option PageShot}
            (not c)
            (s, some (stored_shot t s))
            (if x then (s, none) else rendered_snapshot t s v)).0.solver_attempted
          ≡ true
    go false x e = absurd (ground (arith, e, k))
    go true true e = cc e
    go true false e = rendered_tries_solver t s v r e k
