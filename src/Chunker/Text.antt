-- ===== src/Chunker/Text.antt =====
-- What internal/extraction/nuextract/chunker.go uses of the packages strings and unicode/utf8. A
-- text is the list of its bytes, UTF-8 or not.
use shiori_server.Prelude.{
  ℕ, zero, suc, Bool, true, false, ◌&&◌, ◌||◌, Option, none, some, List, [], ◌∷◌, ◌++◌, ltb, leb,
  ◌==◌, if◌then◌else◌, drop,
}

abbrev pub between : ℕ → ℕ → ℕ → Bool
between a b x = leb a x && leb x b

-- utf8.RuneStart: no continuation byte.
abbrev pub rune_start : ℕ → Bool
rune_start b = ltb b 128 || leb 192 b

abbrev pub is_continuation : ℕ → Bool
is_continuation = between 128 191

-- What the second byte of an encoding may be after the first one.
abbrev pub second_byte : ℕ → ℕ → Bool
second_byte a b =
    if a == 224
    then between 160 191 b
    else if a == 237
    then between 128 159 b
    else if a == 240
    then between 144 191 b
    else if a == 244
    then between 128 143 b
    else is_continuation b

abbrev head_is : (ℕ → Bool) → List ℕ → Bool
head_is test [] = false
head_is test (b ∷ bs) = test b

-- The size that utf8.DecodeRuneInString gives: the bytes of the first encoding, and 1 where there
-- is no valid one.
unfoldable pub rune_size : List ℕ → ℕ
rune_size [] = 0
rune_size (a ∷ bs) =
    if between 194 223 a && head_is is_continuation bs
    then 2
    else if between 224 239 a && head_is (second_byte a) bs && head_is is_continuation (drop 1 bs)
    then 3
    else if between 240 244 a
        && head_is (second_byte a) bs
        && head_is is_continuation (drop 1 bs)
        && head_is is_continuation (drop 2 bs)
    then 4
    else 1

abbrev is_ascii_space : ℕ → Bool
is_ascii_space b = between 9 13 b || b == 32

-- The encodings of three bytes that unicode.IsSpace accepts: U+1680, U+2000 to U+200A, U+2028,
-- U+2029, U+202F, U+205F and U+3000.
abbrev is_wide_space : ℕ → ℕ → ℕ → Bool
is_wide_space a b c =
    (a == 225 && b == 154 && c == 128)
    || (a == 226 && b == 128 && (between 128 138 c || c == 168 || c == 169 || c == 175))
    || (a == 226 && b == 129 && c == 159)
    || (a == 227 && b == 128 && c == 128)

-- The bytes after the first one of the white space that a text starts with.
unfoldable pub space_tail : List ℕ → Option ℕ
space_tail [] = none
space_tail (a ∷ []) = if is_ascii_space a then some 0 else none
space_tail (a ∷ b ∷ []) =
    if is_ascii_space a then some 0 else if a == 194 && (b == 133 || b == 160) then some 1 else none
space_tail (a ∷ b ∷ c ∷ rest) =
    if is_ascii_space a
    then some 0
    else if a == 194 && (b == 133 || b == 160)
    then some 1
    else if is_wide_space a b c
    then some 2
    else none

-- The same for the white space that a text ends with, the text read backwards.
unfoldable pub space_tail_back : List ℕ → Option ℕ
space_tail_back [] = none
space_tail_back (a ∷ []) = if is_ascii_space a then some 0 else none
space_tail_back (b ∷ a ∷ []) =
    if is_ascii_space b then some 0 else if a == 194 && (b == 133 || b == 160) then some 1 else none
space_tail_back (c ∷ b ∷ a ∷ rest) =
    if is_ascii_space c
    then some 0
    else if b == 194 && (c == 133 || c == 160)
    then some 1
    else if is_wide_space a b c
    then some 2
    else none

-- Drops `k` bytes and then white space, one encoding after the other.
unfoldable pub trim_after : (List ℕ → Option ℕ) → ℕ → List ℕ → List ℕ
trim_after space k [] = []
trim_after space (suc k) (c ∷ cs) = trim_after space k cs
trim_after space zero (c ∷ cs) = elim (space (c ∷ cs)) [
  | none ↦ c ∷ cs
  | some k ↦ trim_after space k cs
]

unfoldable pub reverse_onto : List ℕ → List ℕ → List ℕ
reverse_onto acc [] = acc
reverse_onto acc (c ∷ cs) = reverse_onto (c ∷ acc) cs

-- strings.TrimSpace
unfoldable pub trim_space : List ℕ → List ℕ
unfolding trim_after reverse_onto space_tail space_tail_back
trim_space s =
    reverse_onto []
      (trim_after space_tail_back zero (reverse_onto [] (trim_after space_tail zero s)))

-- strings.ReplaceAll(s, "\r\n", "\n")
unfoldable pub unix_lines : List ℕ → List ℕ
unix_lines [] = []
unix_lines (c ∷ cs) =
    let rest = unix_lines cs in if c == 13 && head_is (λ d. d == 10) cs then rest else c ∷ rest

-- What strings.Split(s, "\n") gives, as its first text and the further ones.
unfoldable pub split_lines : List ℕ → List ℕ × List (List ℕ)
split_lines [] = ([], [])
split_lines (c ∷ cs) =
    let (line, lines) = split_lines cs in if c == 10 then ([], line ∷ lines) else (c ∷ line, lines)

-- strings.Join(lines, "\n")
unfoldable pub join_lines : List (List ℕ) → List ℕ
join_lines [] = []
join_lines (l ∷ []) = l
join_lines (l ∷ l' ∷ ls) = l ++ 10 ∷ join_lines (l' ∷ ls)

-- strings.HasPrefix
unfoldable pub has_prefix : List ℕ → List ℕ → Bool
has_prefix s [] = true
has_prefix [] (p ∷ ps) = false
has_prefix (c ∷ cs) (p ∷ ps) = c == p && has_prefix cs ps

-- The equality of two texts.
unfoldable pub same : List ℕ → List ℕ → Bool
same [] [] = true
same [] (d ∷ ds) = false
same (c ∷ cs) [] = false
same (c ∷ cs) (d ∷ ds) = c == d && same cs ds
