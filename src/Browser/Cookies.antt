-- ===== src/Browser/Cookies.antt =====
-- internal/platform/browser/chromedp/solver.go: the cookies of a domain profile. A text is the list
-- of its bytes; strings.ToLower is given.
pub mod Latest
pub mod Hosts
use shiori_server.Prelude.{
  ℕ, Bool, true, false, not, ◌&&◌, ◌||◌, Option, none, some, List, [], ◌∷◌, ◌++◌, leb, same_bytes,
  if◌then◌else◌, length, drop, ◌-◌,
}
use shiori_server.Chunker.Text.{trim_space, has_prefix}
use shiori_server.Chunker.Markdown.{is_empty}

-- A time in seconds since the epoch: 0, a negative number, or a positive one.
pub data CookieTime : Type 0 where
  unset session_only : CookieTime
  until : ℕ → CookieTime

pub record Cookie : Type 0 where
  pub name : List ℕ
  pub value : List ℕ
  pub domain : List ℕ
  pub path : List ℕ
  pub expires : CookieTime
  pub expiry : CookieTime

abbrev pub or_expiry : CookieTime → CookieTime → CookieTime
or_expiry unset expiry = expiry
or_expiry session_only expiry = session_only
or_expiry (until t) expiry = until t

abbrev pub is_past : ℕ → CookieTime → Bool
is_past now unset = false
is_past now session_only = false
is_past now (until t) = leb t now

-- The cookie has expired.
abbrev pub is_dead : ℕ → Cookie → Bool
is_dead now c = is_past now (or_expiry c.expires c.expiry)

-- The map from keys to cookies.
abbrev pub find_cookie : List ℕ → List (List ℕ × Cookie) → Option Cookie
find_cookie k [] = none
find_cookie k ((j, c) ∷ m) = if same_bytes j k then some c else find_cookie k m

abbrev pub put_cookie : List ℕ → Cookie → List (List ℕ × Cookie) → List (List ℕ × Cookie)
put_cookie k c [] = (k, c) ∷ []
put_cookie k c ((j, d) ∷ m) = if same_bytes j k then (k, c) ∷ m else (j, d) ∷ put_cookie k c m

abbrev pub drop_cookie : List ℕ → List (List ℕ × Cookie) → List (List ℕ × Cookie)
drop_cookie k [] = []
drop_cookie k ((j, d) ∷ m) =
    let rest = drop_cookie k m in if same_bytes j k then rest else (j, d) ∷ rest

abbrev pub cookies_of : List (List ℕ × Cookie) → List Cookie
cookies_of [] = []
cookies_of ((k, c) ∷ m) = c ∷ cookies_of m

module _ (lower : List ℕ → List ℕ) where
  unfoldable pub cookie_key : Cookie → List ℕ
  cookie_key c = lower c.domain ++ 0 ∷ c.path ++ 0 ∷ c.name

  unfoldable pub add_cookie : ℕ → Cookie → List (List ℕ × Cookie) → List (List ℕ × Cookie)
  add_cookie now c m =
      if is_empty (trim_space c.name)
      then m
      else if is_dead now c
      then drop_cookie (cookie_key c) m
      else put_cookie (cookie_key c) c m

  unfoldable pub add_cookies : ℕ → List Cookie → List (List ℕ × Cookie) → List (List ℕ × Cookie)
  add_cookies now [] m = m
  add_cookies now (c ∷ cs) m = add_cookies now cs (add_cookie now c m)

  -- The map that the result lists, in some order.
  unfoldable pub merged_cookies : ℕ → List Cookie → List Cookie → List (List ℕ × Cookie)
  merged_cookies now existing incoming = add_cookies now incoming (add_cookies now existing [])

  unfoldable pub merge_cookies : ℕ → List Cookie → List Cookie → List Cookie
  merge_cookies now existing incoming = cookies_of (merged_cookies now existing incoming)

  -- strings.TrimPrefix(domain, ".")
  abbrev pub without_dot : List ℕ → List ℕ
  without_dot s = if has_prefix s (b'.' ∷ []) then drop 1 s else s

  -- strings.HasSuffix(host, suffix)
  abbrev pub has_suffix : List ℕ → List ℕ → Bool
  has_suffix host suffix =
      leb (length suffix) (length host)
      && same_bytes (drop (length host - length suffix) host) suffix

  -- FetchAsset sends the cookie to the host of the asset, none where its URL does not parse.
  unfoldable pub sends_cookie : Option (List ℕ) → Cookie → Bool
  sends_cookie none c = true
  sends_cookie (some host) c =
      let domain = without_dot (lower c.domain) in
      not (
        not (is_empty domain)
        && not (same_bytes host domain)
        && not (has_suffix host (b'.' ∷ domain)))
