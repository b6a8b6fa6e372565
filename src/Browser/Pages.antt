-- ===== src/Browser/Pages.antt =====
-- internal/platform/browser/chromedp/provider.go: what a rendered page asks of a person, and
-- Snapshot. The packages strings and net/url are given, and so are the pages that Chromium renders
-- and what FlareSolverr answers.
pub mod Solver
use shiori_server.Prelude.{
  ℕ, String, Bool, true, false, not, ◌&&◌, ◌||◌, Option, none, some, List, [], ◌∷◌, str_eq,
  if◌then◌else◌,
}
use shiori_server.Challenge.Types.{UserActionKind, kind_none, challenge_kind, login, blocked}

pub record RenderedPage : Type 0 where
  pub html : String
  pub final_url : String
  pub title : String
  pub body : String
  pub has_challenge : Bool
  pub has_login : Bool

-- strings.ToLower, strings.TrimSpace, strings.Contains, strings.HasSuffix, and the path of a URL in
-- lower case without its outer slashes, with its segments, none where it does not parse.
pub record Texts : Type 0 where
  pub lower : String → String
  pub trim : String → String
  pub contains : String → String → Bool
  pub ends_in : String → String → Bool
  pub path_of : String → Option (String × List String)

abbrev pub has_marker : Texts → String → List String → Bool
has_marker t text [] = false
has_marker t text (m ∷ ms) = if t.contains text m then true else has_marker t text ms

unfoldable pub is_cloudflare_challenge : Texts → RenderedPage → Bool
is_cloudflare_challenge t p =
    if p.has_challenge
    then true
    else if has_marker t (t.lower (t.trim p.title))
        ("just a moment..." ∷ "attention required! | cloudflare" ∷ [])
    then true
    else has_marker t (t.lower p.body) (
        "performing security verification" ∷ "verify you are human" ∷ "checking your browser"
        ∷ "enable javascript and cookies to continue" ∷ [])

abbrev pub is_login_segment : String → Bool
is_login_segment s =
    str_eq s "login"
    || str_eq s "signin"
    || str_eq s "sign-in"
    || str_eq s "sign_in"
    || str_eq s "authenticate"
    || str_eq s "authentication"

abbrev pub has_login_segment : List String → Bool
has_login_segment [] = false
has_login_segment (s ∷ ss) = if is_login_segment s then true else has_login_segment ss

abbrev pub is_login_path : Texts → Option (String × List String) → Bool
is_login_path t none = false
is_login_path t (some (path, segments)) =
    if has_login_segment segments
    then true
    else t.ends_in path "sessions/new" || t.ends_in path "session/new"

unfoldable pub redirected_to_login : Texts → String → String → Bool
redirected_to_login t requested final =
    if str_eq requested "" || str_eq final "" || str_eq requested final
    then false
    else is_login_path t (t.path_of final)

unfoldable pub classify_user_action : Texts → RenderedPage → String → UserActionKind
classify_user_action t p requested =
    if has_marker t (t.lower p.body)
      ("why have i been blocked?" ∷ "sorry, you have been blocked" ∷ "cloudflare ray id" ∷ [])
    then blocked
    else if is_cloudflare_challenge t p
    then challenge_kind
    else if p.has_login || redirected_to_login t requested p.final_url
    then login
    else kind_none

-- waitForAutomaticChallenge: what each tick renders, none for an error or a cancellation; after the
-- last one the timer fires.
unfoldable pub wait_for_automatic_challenge :
    Texts → RenderedPage → List (Option RenderedPage) → Option RenderedPage
wait_for_automatic_challenge t current [] = some current
wait_for_automatic_challenge t current (tick ∷ ticks) =
    if is_cloudflare_challenge t current
    then elim tick [ none ↦ none | some next ↦ wait_for_automatic_challenge t next ticks ]
    else some current

-- The fields of a session that Snapshot reads and writes; `chromium` tells whether it has a context,
-- which a session of FlareSolverr has not.
pub record PageSession : Type 0 where
  pub chromium : Bool
  pub requested_url : String
  pub status : ℕ
  pub solver_attempted : Bool
  pub solver_html : String
  pub solver_final_url : String

-- What FlareSolverr's solution has, once it is applied to the page.
pub record Solution : Type 0 where
  pub status : ℕ
  pub html : String
  pub url : String

-- What the parts outside answer one call: the first rendering and those of the wait, the solution
-- and the rendering after it, and whether the browser's cookies could be read. `cancelled` is the
-- caller's context at the start.
pub record View : Type 0 where
  pub cancelled : Bool
  pub first : Option RenderedPage
  pub ticks : List (Option RenderedPage)
  pub solution : Option Solution
  pub second : Option RenderedPage
  pub state_read : Bool

pub record PageShot : Type 0 where
  pub page_html : String
  pub page_url : String
  pub page_status : ℕ
  pub user_action : Bool
  pub action_kind : UserActionKind

abbrev pub is_challenge : UserActionKind → Bool
is_challenge challenge_kind = true
is_challenge _ = false

abbrev pub needs_person : UserActionKind → Bool
needs_person kind_none = false
needs_person _ = true

abbrev pub is_solvable : UserActionKind → Bool
is_solvable challenge_kind = true
is_solvable blocked = true
is_solvable _ = false

abbrev pub text_or : String → String → String
text_or text fallback = if str_eq text "" then fallback else text

module _ (t : Texts) where
  abbrev pub waited_page :
      PageSession → Option RenderedPage → List (Option RenderedPage) → Option RenderedPage
  waited_page s none ticks = none
  waited_page s (some p) ticks =
      if is_challenge (classify_user_action t p s.requested_url)
      then wait_for_automatic_challenge t p ticks
      else some p

  abbrev pub should_use_solver : PageSession → Option RenderedPage → Bool
  should_use_solver s none = true
  should_use_solver s (some p) = is_solvable (classify_user_action t p s.requested_url)

  -- The session and the page after the solver's answer.
  abbrev pub with_solution :
      PageSession
      → Option Solution
      → Option RenderedPage
      → Option RenderedPage
      → PageSession × Option RenderedPage
  with_solution s none page second = (record s { solver_attempted = true }, page)
  with_solution s (some x) page second = (
    record s {
      solver_attempted = true;
      status = x.status;
      solver_html = x.html;
      solver_final_url = text_or x.url s.requested_url;
    },
    second,
  )

  abbrev pub shown_page : PageSession → RenderedPage → RenderedPage
  shown_page s p = record p {
    html = text_or s.solver_html p.html;
    final_url = text_or s.solver_final_url p.final_url;
  }

  -- The end of Snapshot; none for an error.
  abbrev pub shot_of : PageSession → Bool → Option RenderedPage → Option PageShot
  shot_of s state_read none = none
  shot_of s state_read (some p) =
      let shown = shown_page s p in
      let kind = classify_user_action t shown s.requested_url in
      if not state_read
      then none
      else if str_eq (t.trim shown.html) ""
      then none
      else some (record {
        page_html = shown.html;
        page_url = shown.final_url;
        page_status = s.status;
        user_action = needs_person kind;
        action_kind = kind;
      })

  -- Whether the solver is called.
  abbrev pub calls_solver : PageSession → View → Bool
  calls_solver s v = should_use_solver s (waited_page s v.first v.ticks) && not s.solver_attempted

  abbrev pub after_solver : PageSession → View → PageSession × Option RenderedPage
  after_solver s v =
      if calls_solver s v
      then with_solution s v.solution (waited_page s v.first v.ticks) v.second
      else (s, waited_page s v.first v.ticks)

  abbrev pub rendered_snapshot : PageSession → View → PageSession × Option PageShot
  rendered_snapshot s v =
      ((after_solver s v).0, shot_of (after_solver s v).0 v.state_read (after_solver s v).1)

  -- What FlareSolverr gave Navigate, for a session of its own.
  abbrev pub stored_shot : PageSession → PageShot
  stored_shot s = record {
    page_html = s.solver_html;
    page_url = s.solver_final_url;
    page_status = s.status;
    user_action = false;
    action_kind = kind_none;
  }

  unfoldable pub take_snapshot : PageSession → View → PageSession × Option PageShot
  take_snapshot s v =
      if not s.chromium
      then (s, some (stored_shot s))
      else if v.cancelled
      then (s, none)
      else rendered_snapshot s v

  -- Snapshot of the session that is found under an ID.
  unfoldable pub find_snapshot : Option PageSession → View → Option PageSession × Option PageShot
  find_snapshot none v = (none, none)
  find_snapshot (some s) v = (some (take_snapshot s v).0, (take_snapshot s v).1)
