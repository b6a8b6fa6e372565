-- ===== src/Json/Repair.antt =====
-- internal/extraction/nuextract/provider.go: extractAndRepairJSON, stripTrailingCommas and
-- repairTruncated. A text is the list of its code points. The functions test for ASCII characters
-- only, and no byte of a longer UTF-8 sequence is one of those, so the loops over bytes of the
-- source see the same characters in the same order.
use shiori_server.Prelude.{
  ℕ, suc, ◌-◌, Bool, true, false, ◌&&◌, ◌||◌, Option, none, some, List, [], ◌∷◌, ◌++◌, ◌==◌,
  if◌then◌else◌,
}

abbrev pub is_open : ℕ → Bool
is_open c = c == b'{' || c == b'['

abbrev pub is_close : ℕ → Bool
is_close c = c == b'}' || c == b']'

-- The flags inString and escaped that all three loops keep.
pub data Mode : Type 0 where
  outside inside escaped : Mode

-- What one character does to the flags.
abbrev pub next_mode : Mode → ℕ → Mode
next_mode escaped c = inside
next_mode inside c = if c == 92 then escaped else if c == 34 then outside else inside
next_mode outside c = if c == 34 then inside else outside

abbrev pub pop_if : ℕ → List ℕ → List ℕ
pop_if c [] = []
pop_if c (d ∷ rest) = if d == c then rest else d ∷ rest

-- The brackets that are open, as the closing ones that they wait for, the innermost first.
abbrev pub next_stack : Mode → ℕ → List ℕ → List ℕ
next_stack outside c stack =
    if c == b'{'
    then b'}' ∷ stack
    else if c == b'['
    then b']' ∷ stack
    else if is_close c
    then pop_if c stack
    else stack
next_stack inside c stack = stack
next_stack escaped c stack = stack

-- The loop of repairTruncated: the flags and the stack after a text.
unfoldable pub mode_after : Mode → List ℕ → Mode
mode_after m [] = m
mode_after m (c ∷ cs) = mode_after (next_mode m c) cs

unfoldable pub stack_after : Mode → List ℕ → List ℕ → List ℕ
stack_after m stack [] = stack
stack_after m stack (c ∷ cs) = stack_after (next_mode m c) (next_stack m c stack) cs

abbrev pub in_string : Mode → Bool
in_string outside = false
in_string inside = true
in_string escaped = true

unfoldable pub repair_truncated : List ℕ → List ℕ
repair_truncated s =
    s ++ ((if in_string (mode_after outside s) then 34 ∷ [] else []) ++ stack_after outside [] s)

abbrev pub is_space : ℕ → Bool
is_space c = c == 32 || c == 9 || c == 10 || c == 13

-- The next character that is no white space, or a space.
unfoldable pub next_visible : List ℕ → ℕ
next_visible [] = 32
next_visible (c ∷ cs) = let rest = next_visible cs in if is_space c then rest else c

abbrev pub is_outside : Mode → Bool
is_outside outside = true
is_outside inside = false
is_outside escaped = false

-- A comma outside of strings with nothing but white space before a closing bracket.
unfoldable pub is_trailing : Mode → ℕ → List ℕ → Bool
is_trailing m c cs = is_outside m && c == b',' && is_close (next_visible cs)

unfoldable pub strip_from : Mode → List ℕ → List ℕ × Bool
unfolding is_trailing
strip_from m [] = ([], false)
strip_from m (c ∷ cs) =
    let rest = strip_from (next_mode m c) cs in
    if is_trailing m c cs then (rest.0, true) else (c ∷ rest.0, rest.1)

unfoldable pub strip_trailing_commas : List ℕ → List ℕ × Bool
unfolding strip_from
strip_trailing_commas s = strip_from outside s

-- strings.Index(s, "{") and the slice from there.
unfoldable pub from_brace : List ℕ → Option (List ℕ)
from_brace [] = none
from_brace (c ∷ cs) = let rest = from_brace cs in if c == b'{' then some (c ∷ cs) else rest

abbrev pub next_depth : Mode → ℕ → ℕ → ℕ
next_depth outside c depth =
    if is_open c then suc depth else if is_close c then depth - 1 else depth
next_depth inside c depth = depth
next_depth escaped c depth = depth

abbrev pub prepend : ℕ → Option (List ℕ) → Option (List ℕ)
prepend c none = none
prepend c (some cs) = some (c ∷ cs)

-- The text up to the bracket that takes the depth back to 0. The first character is a brace, so the
-- depth is not 0 before.
unfoldable pub complete_object : Mode → ℕ → List ℕ → Option (List ℕ)
complete_object m depth [] = none
complete_object m depth (c ∷ cs) =
    let rest = complete_object (next_mode m c) (next_depth m c depth) cs in
    if is_outside m && is_close c && depth == 1 then some (c ∷ []) else prepend c rest

-- The candidate and whether it had to be closed.
unfoldable pub candidate : List ℕ → List ℕ × Bool
unfolding complete_object repair_truncated
candidate s = elim (complete_object outside 0 s) [
  | some found ↦ (found, false)
  | none ↦ (repair_truncated s, true)
]

-- `valid` is json.Unmarshal with no error. none: no object.
unfoldable pub extract_and_repair_json : (List ℕ → Bool) → List ℕ → Option (List ℕ × Bool)
unfolding candidate strip_trailing_commas from_brace
extract_and_repair_json valid s = elim (from_brace s) [
  | none ↦ none
  | some t ↦
      let (c, closed) = candidate t in
      let (cleaned, stripped) = strip_trailing_commas c in
      if valid cleaned then some (cleaned, closed || stripped) else none
]
