-- ===== src/Browser/Cookies/Hosts.antt =====
-- internal/platform/browser/chromedp/solver.go: the hosts that FetchAsset sends a cookie to.
use shiori_server.Prelude.{
  ℕ, ◌≡◌, sym, ◌∙◌, ap, true, false, some, List, ◌∷◌, ◌++◌, ◌-◌, arith, ◌⊎◌, inl, inr, take, drop,
  length, take-drop, same_bytes, same_bytes_eq, Bool-cases,
}
use shiori_server.Chunker.Markdown.{is_empty}
use shiori_server.Browser.Cookies.{Cookie, without_dot, has_suffix, sends_cookie}

has_suffix_lem :
    (lower : List ℕ → List ℕ) (host suffix : List ℕ)
    → has_suffix lower host suffix ≡ true
    → host ≡ take (length host - length suffix) host ++ suffix
has_suffix_lem lower host suffix h =
    let ends : same_bytes (drop (length host - length suffix) host) suffix ≡ true =
      ground (arith, h) in
    sym (take-drop (length host - length suffix) host)
    ∙ ap (λ s. take (length host - length suffix) host ++ s)
        (same_bytes_eq (drop (length host - length suffix) host) suffix ends)

-- A cookie goes to its own domain only: where it has a domain, in lower case and without a dot in
-- front, and it is sent to a host, the host is that domain or ends in a dot and the domain.
pub sends_cookie_lem :
    (lower : List ℕ → List ℕ) (host : List ℕ) (c : Cookie)
    → is_empty (without_dot lower (lower c.domain)) ≡ false
    → sends_cookie lower (some host) c ≡ true
    → (host ≡ without_dot lower (lower c.domain))
      ⊎ ((front : List ℕ) × (host ≡ front ++ b'.' ∷ without_dot lower (lower c.domain)))
unfolding sends_cookie
sends_cookie_lem lower host c h k =
    elim (Bool-cases (same_bytes host (without_dot lower (lower c.domain)))) [
      | inl e ↦ inl (same_bytes_eq host (without_dot lower (lower c.domain)) e)
      | inr e ↦
          let under : has_suffix lower host (b'.' ∷ without_dot lower (lower c.domain)) ≡ true =
            ground (arith, h, k, e) in
          inr (
            take (length host - length (b'.' ∷ without_dot lower (lower c.domain))) host,
            has_suffix_lem lower host (b'.' ∷ without_dot lower (lower c.domain)) under,
          )
    ]
