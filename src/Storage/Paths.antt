-- ===== src/Storage/Paths.antt =====
-- What internal/platform/storage/localfs/localfs.go uses of the packages strings and path/filepath,
-- on a system whose separator is the slash. A path is the list of its bytes.
use shiori_server.Prelude.{
  ℕ, Bool, true, false, ◌&&◌, ◌||◌, List, [], ◌∷◌, ◌++◌, ◌==◌, if◌then◌else◌, same_bytes,
}

abbrev pub starts_with_dot : List ℕ → Bool
starts_with_dot [] = false
starts_with_dot (b ∷ bs) = b == b'.'

-- strings.Contains(s, "..")
abbrev pub has_dots : List ℕ → Bool
has_dots [] = false
has_dots (b ∷ bs) = (b == b'.' && starts_with_dot bs) || has_dots bs

-- strings.HasPrefix(s, prefix)
abbrev pub has_prefix : List ℕ → List ℕ → Bool
has_prefix s [] = true
has_prefix [] (p ∷ ps) = false
has_prefix (b ∷ bs) (p ∷ ps) = b == p && has_prefix bs ps

-- What stands before the first slash, and the parts after it.
abbrev pub part : ℕ → List ℕ × List (List ℕ) → List ℕ × List (List ℕ)
part b (e, es) = if b == b'/' then ([], e ∷ es) else (b ∷ e, es)

abbrev pub split : List ℕ → List ℕ × List (List ℕ)
split [] = ([], [])
split (b ∷ bs) = part b (split bs)

abbrev pub elements : List ℕ → List (List ℕ)
elements s = (split s).0 ∷ (split s).1

abbrev pub is_here : List ℕ → Bool
is_here e = same_bytes e [] || same_bytes e (b'.' ∷ [])

abbrev pub is_parent : List ℕ → Bool
is_parent e = same_bytes e (b'.' ∷ b'.' ∷ [])

-- All but the last element.
abbrev pub up : List (List ℕ) → List (List ℕ)
up [] = []
up (e ∷ []) = []
up (e ∷ f ∷ es) = e ∷ up (f ∷ es)

-- An element after those of `out`.
abbrev pub push : List (List ℕ) → List ℕ → List (List ℕ)
push out e = if is_here e then out else if is_parent e then up out else out ++ e ∷ []

-- The elements that filepath.Clean leaves of a path from the root; `out` has the earlier ones.
abbrev pub clean : List (List ℕ) → List (List ℕ) → List (List ℕ)
clean out [] = out
clean out (e ∷ es) = clean (push out e) es

abbrev pub below_root : List (List ℕ) → List ℕ
below_root [] = []
below_root (e ∷ es) = b'/' ∷ e ++ below_root es

-- The path with these elements, from the root.
abbrev pub render : List (List ℕ) → List ℕ
render [] = b'/' ∷ []
render (e ∷ es) = below_root (e ∷ es)

-- filepath.Join(base, key) where base is not empty.
abbrev pub join : List ℕ → List ℕ → List ℕ
join base key = render (clean [] (elements (base ++ b'/' ∷ key)))
