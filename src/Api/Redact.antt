-- ===== src/Api/Redact.antt =====
-- internal/platform/httpserver/server.go: redactSensitivePath, which keeps the tokens of challenges
-- out of the log. A path is the list of its bytes.
use shiori_server.Prelude.{
  ℕ, ◌≡◌, ◌≢◌, refl, false, not, List, [], ◌∷◌, ◌++◌, arith, ◌==◌, if◌then◌else◌, length, drop, All,
}
use shiori_server.Chunker.Text.{has_prefix, same}

-- /api/v1/challenges/
abbrev pub challenge_prefix : List ℕ
challenge_prefix =
    b'/' ∷ b'a' ∷ b'p' ∷ b'i' ∷ b'/' ∷ b'v' ∷ b'1' ∷ b'/' ∷ b'c' ∷ b'h' ∷ b'a' ∷ b'l' ∷ b'l' ∷ b'e'
    ∷ b'n' ∷ b'g' ∷ b'e' ∷ b's' ∷ b'/' ∷ []

-- assets/client.js
abbrev pub client_script : List ℕ
client_script =
    b'a' ∷ b's' ∷ b's' ∷ b'e' ∷ b't' ∷ b's' ∷ b'/' ∷ b'c' ∷ b'l' ∷ b'i' ∷ b'e' ∷ b'n' ∷ b't' ∷ b'.'
    ∷ b'j' ∷ b's' ∷ []

-- {redacted}
abbrev pub placeholder : List ℕ
placeholder = b'{' ∷ b'r' ∷ b'e' ∷ b'd' ∷ b'a' ∷ b'c' ∷ b't' ∷ b'e' ∷ b'd' ∷ b'}' ∷ []

-- What strings.SplitN(s, "/", 2) gives after the first part, with the slash before it; nothing where
-- there is one part.
unfoldable pub from_slash : List ℕ → List ℕ
from_slash [] = []
from_slash (c ∷ cs) = let rest = from_slash cs in if c == b'/' then c ∷ cs else rest

unfoldable pub redact_sensitive_path : List ℕ → List ℕ
unfolding has_prefix same from_slash
redact_sensitive_path path =
    let remainder = drop (length challenge_prefix) path in
    if not (has_prefix path challenge_prefix)
    then path
    else if same remainder client_script
    then path
    else challenge_prefix ++ placeholder ++ from_slash remainder

abbrev pub NoSlash : List ℕ → Type 0
NoSlash = All (λ c. c ≢ b'/')

from_slash-append :
    (token rest : List ℕ)
    → NoSlash token
    → from_slash rest ≡ rest
    → from_slash (token ++ rest) ≡ rest
unfolding from_slash
from_slash-append [] rest h k = k
from_slash-append (c ∷ token) rest h k = ground (arith, h.0, from_slash-append token rest h.1 k)

-- A token does not get into the log: a path of a challenge, other than the client script's, is
-- logged with the placeholder for its token and its last part, a slash and what follows or nothing,
-- as it is.
pub redact_sensitive_path_lem :
    (token rest : List ℕ)
    → NoSlash token
    → from_slash rest ≡ rest
    → same (token ++ rest) client_script ≡ false
    → redact_sensitive_path (challenge_prefix ++ token ++ rest)
      ≡ challenge_prefix ++ placeholder ++ rest
unfolding redact_sensitive_path has_prefix
redact_sensitive_path_lem token rest h k other = rw (other, from_slash-append token rest h k) refl
