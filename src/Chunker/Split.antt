-- ===== src/Chunker/Split.antt =====
-- internal/extraction/nuextract/chunker.go: contextBudget, splitUTF8 and splitOversizedBlock.
use shiori_server.Prelude.{
  ℕ, zero, suc, ◌+◌, ◌-◌, ◌*◌, ◌/◌, Bool, true, ◌&&◌, List, [], ◌∷◌, ◌++◌, ltb, leb, ◌==◌,
  if◌then◌else◌, length, take, drop,
}
use shiori_server.Chunker.Text.{rune_start, rune_size, split_lines}

abbrev at_least : ℕ → ℕ → ℕ
at_least low n = if ltb n low then low else n

-- The bytes of input and the tokens of output. A number of tokens or bytes below 0 stands as 0: the
-- source takes them alike.
unfoldable pub context_budget : ℕ → ℕ → ℕ → ℕ × ℕ
context_budget context_tokens configured schema_bytes =
    let context = if context_tokens == 0 then 8192 else context_tokens in
    let output = at_least 512 (if ltb (context / 4) 8192 then context / 4 else 8192) in
    let schema = (schema_bytes + 2) / 3 in
    let bytes = at_least 256 (context - output - 512 - schema) * 3 in
    (if ltb 0 configured && ltb configured bytes then configured else bytes, output)

-- The test on value[cut]; the loop asks it below the length only.
abbrev pub starts : List ℕ → Bool
starts [] = true
starts (b ∷ bs) = rune_start b

-- The loop that moves the cut back to the start of an encoding.
unfoldable pub cut_back : ℕ → List ℕ → ℕ
cut_back zero value = 0
cut_back (suc n) value =
    let rest = cut_back n value in if starts (drop (suc n) value) then suc n else rest

unfoldable pub cut_of : ℕ → List ℕ → ℕ
unfolding cut_back rune_size
cut_of max value = let cut = cut_back max value in if cut == 0 then rune_size value else cut

abbrev pub non_empty : List ℕ → List (List ℕ)
non_empty [] = []
non_empty (b ∷ bs) = (b ∷ bs) ∷ []

-- The loop of splitUTF8 with what follows it. Each turn takes a byte at least, so that the length of
-- the value is fuel enough; without fuel the rest is lost.
unfoldable pub split_loop : ℕ → ℕ → List ℕ → List (List ℕ)
unfolding cut_of
split_loop zero max value = if ltb max (length value) then [] else non_empty value
split_loop (suc fuel) max value =
    let cut = cut_of max value in
    let rest = split_loop fuel max (drop cut value) in
    if ltb max (length value) then take cut value ∷ rest else non_empty value

unfoldable pub split_utf8 : List ℕ → ℕ → List (List ℕ)
unfolding split_loop
split_utf8 value max =
    if leb (length value) max then value ∷ [] else split_loop (length value) max value

-- The finished parts and the text of the builder.
abbrev pub Building : Type 0
Building = List (List ℕ) × List ℕ

abbrev pub separator : List ℕ → List ℕ
separator [] = []
separator (b ∷ bs) = 10 ∷ []

-- One turn of the inner loop of splitOversizedBlock.
unfoldable pub add_part : ℕ → List ℕ → Building → Building
add_part max part (parts, current) =
    if ltb max (length current + length (separator current) + length part)
    then (parts ++ current ∷ [], part)
    else (parts, current ++ (separator current ++ part))

unfoldable pub add_parts : ℕ → List (List ℕ) → Building → Building
unfolding add_part
add_parts max [] b = b
add_parts max (p ∷ ps) b = add_parts max ps (add_part max p b)

-- The outer loop.
unfoldable pub add_lines : ℕ → List (List ℕ) → Building → Building
unfolding add_parts split_utf8
add_lines max [] b = b
add_lines max (l ∷ ls) b = add_lines max ls (add_parts max (split_utf8 l max) b)

unfoldable pub split_oversized_block : List ℕ → ℕ → List (List ℕ)
unfolding add_lines split_lines
split_oversized_block block max =
    let (line, lines) = split_lines block in
    let (parts, current) = add_lines max (line ∷ lines) ([], []) in
    if leb (length block) max then block ∷ [] else parts ++ non_empty current
