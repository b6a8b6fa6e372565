-- ===== src/Chunker/Markdown.antt =====
-- internal/extraction/nuextract/chunker.go: markdownBlocks and splitSemanticMarkdown.
use shiori_server.Prelude.{
  ℕ, ◌+◌, ◌-◌, Bool, true, false, not, ◌&&◌, ◌||◌, List, [], ◌∷◌, ◌++◌, ltb, leb, ◌==◌,
  if◌then◌else◌, length,
}
use shiori_server.Chunker.Text.{trim_space, unix_lines, split_lines, join_lines, has_prefix, same}
use shiori_server.Chunker.Split.{split_oversized_block}

abbrev pub is_empty : {A : Type 0} → List A → Bool
is_empty [] = true
is_empty (x ∷ xs) = false

-- The blocks that are done and the lines of the open one.
abbrev Reading : Type 0
Reading = List (List ℕ) × List (List ℕ)

abbrev close_block : Reading → Reading
close_block (blocks, []) = (blocks, [])
close_block (blocks, l ∷ ls) = (blocks ++ join_lines (l ∷ ls) ∷ [], [])

-- One turn of the loop of markdownBlocks. A flush of no lines does nothing, so the source's test on
-- them is in close_block.
abbrev read_line : List ℕ → Reading → Reading
read_line line r =
    let trimmed = trim_space line in
    if is_empty trimmed
    then close_block r
    else if has_prefix trimmed (b'#' ∷ [])
    then ((close_block r).0, (close_block r).1 ++ line ∷ [])
    else (r.0, r.1 ++ line ∷ [])

abbrev read_lines : List (List ℕ) → Reading → Reading
read_lines [] r = r
read_lines (l ∷ ls) r = read_lines ls (read_line l r)

unfoldable pub markdown_blocks : List ℕ → List (List ℕ)
unfolding trim_space unix_lines split_lines join_lines has_prefix
markdown_blocks content =
    let (line, lines) = split_lines (unix_lines content) in
    (close_block (read_lines (line ∷ lines) ([], []))).0

unfoldable pub first_line : List ℕ → List ℕ
unfolding split_lines
first_line value = (split_lines value).0

unfoldable pub is_heading : List ℕ → Bool
unfolding first_line has_prefix
is_heading block =
    let line = first_line block in
    has_prefix line (b'#' ∷ 32 ∷ [])
    || has_prefix line (b'#' ∷ b'#' ∷ 32 ∷ [])
    || has_prefix line (b'#' ∷ b'#' ∷ b'#' ∷ 32 ∷ [])
    || has_prefix line (b'#' ∷ b'#' ∷ b'#' ∷ b'#' ∷ 32 ∷ [])

-- The variables that the closures of splitSemanticMarkdown share.
pub record Packer : Type 0 where
  pub chunks : List (List ℕ)
  pub current : List ℕ
  pub heading : List ℕ
  pub seen : List (List ℕ)

unfoldable pub flush : Packer → Packer
unfolding trim_space
flush p =
    let chunk = trim_space p.current in
    record p { chunks = if is_empty chunk then p.chunks else p.chunks ++ chunk ∷ []; current = [] }

-- The heading and the empty line that a chunk of later parts starts with.
unfoldable pub prefix_of : List ℕ → List ℕ → List ℕ
unfolding same
prefix_of heading part =
    if not (is_empty heading) && not (same part heading) then heading ++ 10 ∷ 10 ∷ [] else []

-- appendPart. The separator counts for the length and is not written, as in the source.
unfoldable pub append_part : ℕ → List ℕ → Packer → Packer
unfolding flush prefix_of
append_part max text p =
    let part = trim_space text in
    let prefix = prefix_of p.heading part in
    let separator = if is_empty p.current then 0 else 2 in
    if is_empty part
    then p
    else if ltb max (length p.current + separator + length part)
    then record (flush p) {
      current =
          (if not (is_empty prefix) && leb (length prefix + length part) max then prefix else [])
          ++ part;
    }
    else record p { current = p.current ++ part }

unfoldable pub append_parts : ℕ → List (List ℕ) → Packer → Packer
unfolding append_part
append_parts max [] p = p
append_parts max (t ∷ ts) p = append_parts max ts (append_part max t p)

abbrev pub one_of : List ℕ → List (List ℕ) → Bool
one_of h [] = false
one_of h (k ∷ ks) = same h k || one_of h ks

unfoldable pub part_limit : ℕ → List ℕ → List ℕ → ℕ
unfolding same
part_limit max heading block =
    if not (is_empty heading) && not (same block heading) && ltb (length heading + 2) max
    then max - (length heading + 2)
    else max

-- One turn of the loop over the blocks. `sha256` is the package's hash.
unfoldable pub add_block : (List ℕ → List ℕ) → ℕ → List ℕ → Packer → Packer
unfolding same append_parts is_heading first_line part_limit split_oversized_block trim_space
add_block sha256 max block p =
    let trimmed = trim_space block in
    let hash = sha256 trimmed in
    let heading = if is_heading trimmed then first_line trimmed else p.heading in
    if is_empty trimmed || one_of hash p.seen
    then p
    else append_parts max (split_oversized_block trimmed (part_limit max heading trimmed))
        (record p { heading = heading; seen = hash ∷ p.seen })

unfoldable pub add_blocks : (List ℕ → List ℕ) → ℕ → List (List ℕ) → Packer → Packer
unfolding add_block
add_blocks sha256 max [] p = p
add_blocks sha256 max (b ∷ bs) p = add_blocks sha256 max bs (add_block sha256 max b p)

abbrev pub new_packer : Packer
new_packer = record { chunks = []; current = []; heading = []; seen = [] }

unfoldable pub split_semantic_markdown : (List ℕ → List ℕ) → List ℕ → ℕ → List (List ℕ)
unfolding add_blocks flush markdown_blocks trim_space
split_semantic_markdown sha256 text max =
    let content = trim_space text in
    if is_empty content
    then [] ∷ []
    else if max == 0 || leb (length content) max
    then content ∷ []
    else (flush (add_blocks sha256 max (markdown_blocks content) new_packer)).chunks
