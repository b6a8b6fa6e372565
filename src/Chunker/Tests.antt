-- ===== src/Chunker/Tests.antt =====
-- Pages in bytes, and the theorems about their splitting at them. 227 129 130 is a character of
-- three bytes, 10 the line end and 35 the sign of a heading.
use shiori_server.Prelude.{ℕ, ◌≡◌, refl, List, [], ◌∷◌, arith, All}
use shiori_server.Chunker.Split.{split_utf8, split_oversized_block}
use shiori_server.Chunker.Markdown.{split_semantic_markdown}
use shiori_server.Chunker.Bounds.{Short}
use shiori_server.Chunker.Packing.{Short-split_semantic_markdown}

abbrev kana : List ℕ
kana = 227 ∷ 129 ∷ 130 ∷ 227 ∷ 129 ∷ 132 ∷ []

-- The second character does not fit and is not cut.
kana_parts : split_utf8 kana 4 ≡ (227 ∷ 129 ∷ 130 ∷ []) ∷ (227 ∷ 129 ∷ 132 ∷ []) ∷ []
unfolding split_utf8
kana_parts = refl

abbrev two_lines : List ℕ
two_lines = 97 ∷ 98 ∷ 99 ∷ 10 ∷ 100 ∷ 101 ∷ []

two_parts : split_oversized_block two_lines 4 ≡ (97 ∷ 98 ∷ 99 ∷ []) ∷ (100 ∷ 101 ∷ []) ∷ []
unfolding split_oversized_block
two_parts = refl

-- A heading `# T` and two paragraphs.
abbrev page : List ℕ
page = 35 ∷ 32 ∷ 84 ∷ 10 ∷ 10 ∷ 97 ∷ 97 ∷ 97 ∷ 10 ∷ 10 ∷ 98 ∷ 98 ∷ 98 ∷ []

abbrev no_hash : List ℕ → List ℕ
no_hash s = s

-- The second chunk repeats the heading.
page_chunks :
    split_semantic_markdown no_hash page 8
    ≡ (35 ∷ 32 ∷ 84 ∷ 97 ∷ 97 ∷ 97 ∷ []) ∷ (35 ∷ 32 ∷ 84 ∷ 10 ∷ 10 ∷ 98 ∷ 98 ∷ 98 ∷ []) ∷ []
unfolding split_semantic_markdown
page_chunks = refl

Short-split_semantic_markdown_example : All (Short 8) (split_semantic_markdown no_hash page 8)
Short-split_semantic_markdown_example = Short-split_semantic_markdown no_hash page 8 (omega arith)
