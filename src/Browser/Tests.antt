-- ===== src/Browser/Tests.antt =====
-- Cookies, sessions and pages of the browser, and the theorems about them.
use shiori_server.Prelude.{
  ℕ, ◌≤◌, ◌≡◌, refl, true, false, none, some, List, [], ◌∷◌, ◌++◌, ◌⊎◌, str_eq,
}
use shiori_server.Challenge.Types.{challenge_kind}
use shiori_server.Chunker.Text.{
  trim_space, trim_after, reverse_onto, space_tail, space_tail_back, has_prefix,
}
use shiori_server.Chunker.Markdown.{is_empty}
use shiori_server.Browser.Cookies.{
  CookieTime, unset, until, Cookie, find_cookie, cookie_key, add_cookie, add_cookies,
  merged_cookies, merge_cookies, without_dot, sends_cookie,
}
use shiori_server.Browser.Cookies.Latest.{latest, IsKeyed, merged_cookies_lem}
use shiori_server.Browser.Cookies.Hosts.{sends_cookie_lem}
use shiori_server.Browser.Sessions.{
  no_sessions, begins, solves, finishes, closes, BrowserStep, browser_run, acquire_profile,
  begin_navigate, take_session, fail_navigate, finish_navigate, navigate_with_solver, close_session,
}
use shiori_server.Browser.Sessions.Leases.{uses, IsExclusive, browser_run-IsExclusive}
use shiori_server.Browser.Pages.{
  RenderedPage, Texts, PageSession, View, PageShot, is_cloudflare_challenge, classify_user_action,
  wait_for_automatic_challenge, take_snapshot,
}
use shiori_server.Browser.Pages.Solver.{
  solver_calls, calls_left, solver_calls_lem, snapshot_tries_solver,
}

abbrev same : List ℕ → List ℕ
same s = s

abbrev cookie : List ℕ → List ℕ → CookieTime → Cookie
cookie name domain expires = record {
  name = name;
  value = [];
  domain = domain;
  path = b'/' ∷ [];
  expires = expires;
  expiry = unset;
}

abbrev old_cookies : List Cookie
old_cookies = cookie (b'a' ∷ []) (b'x' ∷ []) (until 50) ∷ cookie (b'b' ∷ []) (b'x' ∷ []) unset ∷ []

-- The answer takes one of the cookies away and renews the other.
abbrev new_cookies : List Cookie
new_cookies =
    cookie (b'a' ∷ []) (b'x' ∷ []) (until 10) ∷ cookie (b'b' ∷ []) (b'x' ∷ []) (until 90) ∷ []

merge_run :
    merge_cookies same 20 old_cookies new_cookies ≡ cookie (b'b' ∷ []) (b'x' ∷ []) (until 90) ∷ []
unfolding merge_cookies merged_cookies add_cookies add_cookie cookie_key trim_space trim_after
    reverse_onto space_tail space_tail_back
merge_run = refl

merged_cookies_lem_example :
    (find_cookie (b'x' ∷ 0 ∷ b'/' ∷ 0 ∷ b'b' ∷ []) (merged_cookies same 20 old_cookies new_cookies)
      ≡ latest same 20 (b'x' ∷ 0 ∷ b'/' ∷ 0 ∷ b'b' ∷ []) (old_cookies ++ new_cookies) none)
    × IsKeyed same 20 (merged_cookies same 20 old_cookies new_cookies)
merged_cookies_lem_example =
    merged_cookies_lem same 20 old_cookies new_cookies (b'x' ∷ 0 ∷ b'/' ∷ 0 ∷ b'b' ∷ [])

-- A cookie of x goes to a.x.
abbrev below : List ℕ
below = b'a' ∷ b'.' ∷ b'x' ∷ []

abbrev dotted : Cookie
dotted = cookie (b'a' ∷ []) (b'.' ∷ b'x' ∷ []) unset

not_blank : is_empty (without_dot same (same dotted.domain)) ≡ false
unfolding has_prefix
not_blank = refl

is_sent : sends_cookie same (some below) dotted ≡ true
unfolding sends_cookie has_prefix
is_sent = refl

sends_cookie_lem_example :
    (below ≡ without_dot same (same dotted.domain))
    ⊎ ((front : List ℕ) × (below ≡ front ++ b'.' ∷ without_dot same (same dotted.domain)))
sends_cookie_lem_example = sends_cookie_lem same below dotted not_blank is_sent

-- A cookie without a domain goes to every host.
sent_everywhere : sends_cookie same (some (b'y' ∷ [])) (cookie (b'a' ∷ []) [] unset) ≡ true
unfolding sends_cookie has_prefix
sent_everywhere = refl

-- Two jobs on one domain, the second of which waits; FlareSolverr takes no lease.
abbrev two_jobs : List BrowserStep
two_jobs = begins "d" ∷ begins "d" ∷ solves "d" ∷ finishes 0 ∷ closes 0 ∷ begins "d" ∷ []

second_runs : uses "d" (browser_run no_sessions two_jobs) ≡ 1
unfolding begin_navigate acquire_profile take_session fail_navigate finish_navigate
    navigate_with_solver close_session
second_runs = refl

browser_run-IsExclusive_example : IsExclusive (browser_run no_sessions two_jobs)
browser_run-IsExclusive_example = browser_run-IsExclusive two_jobs

abbrev plain_texts : Texts
plain_texts = record {
  lower = λ s. s;
  trim = λ s. s;
  contains = λ s m. str_eq s m;
  ends_in = λ s m. str_eq s m;
  path_of = λ s. none;
}

abbrev challenge_page : RenderedPage
challenge_page = record {
  html = "<html>";
  final_url = "https://a.example/1";
  title = "just a moment...";
  body = "";
  has_challenge = false;
  has_login = false;
}

abbrev new_session : PageSession
new_session = record {
  chromium = true;
  requested_url = "https://a.example/1";
  status = 200;
  solver_attempted = false;
  solver_html = "";
  solver_final_url = "";
}

-- The challenge stays, and FlareSolverr has no solution.
abbrev stays : View
stays = record {
  cancelled = false;
  first = some challenge_page;
  ticks = some challenge_page ∷ [];
  solution = none;
  second = none;
  state_read = true;
}

abbrev challenge_shot : PageShot
challenge_shot = record {
  page_html = "<html>";
  page_url = "https://a.example/1";
  page_status = 200;
  user_action = true;
  action_kind = challenge_kind;
}

solver_calls_lem_example :
    solver_calls plain_texts new_session (stays ∷ stays ∷ []) ≤ calls_left new_session
solver_calls_lem_example = solver_calls_lem plain_texts new_session (stays ∷ stays ∷ [])

shows_challenge : (take_snapshot plain_texts new_session stays).1 ≡ some challenge_shot
unfolding take_snapshot classify_user_action is_cloudflare_challenge wait_for_automatic_challenge
shows_challenge = refl

snapshot_tries_solver_example :
    (take_snapshot plain_texts new_session stays).0.solver_attempted ≡ true
snapshot_tries_solver_example =
    snapshot_tries_solver plain_texts new_session stays challenge_shot shows_challenge refl
