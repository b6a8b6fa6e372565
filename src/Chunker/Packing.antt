-- ===== src/Chunker/Packing.antt =====
-- internal/extraction/nuextract/chunker.go: the limits that contextBudget and
-- splitSemanticMarkdown keep.
use shiori_server.Prelude.{
  ℕ, zero, suc, ◌+◌, ◌/◌, ◌≤◌, ◌≡◌, ◌||◌, List, [], ◌∷◌, Option, if◌then◌else◌, arith, inl, inr,
  ltb, leb, ◌==◌, Bool-cases, Option-cases, length, length-append, All,
}
use shiori_server.Chunker.Text.{trim_after, trim_space, reverse_onto, space_tail, space_tail_back}
use shiori_server.Chunker.Split.{context_budget, split_oversized_block}
use shiori_server.Chunker.Markdown.{
  Packer, is_empty, flush, prefix_of, append_part, append_parts, add_block, add_blocks, part_limit,
  new_packer, split_semantic_markdown, markdown_blocks, is_heading, first_line, one_of,
}
use shiori_server.Chunker.Bounds.{Short, All-append, Short-split_oversized_block}

length-trim_after :
    (space : List ℕ → Option ℕ) (k : ℕ) (s : List ℕ) → length (trim_after space k s) ≤ length s
unfolding trim_after
length-trim_after space k [] = omega arith
length-trim_after space (suc k) (c ∷ cs) = omega (arith, length-trim_after space k cs)
length-trim_after space zero (c ∷ cs) = elim (Option-cases (space (c ∷ cs))) [
  | inl e ↦ ground (arith, e)
  | inr (k, e) ↦ ground (arith, e, length-trim_after space k cs)
]

length-reverse_onto : (acc s : List ℕ) → length (reverse_onto acc s) ≡ length acc + length s
unfolding reverse_onto
length-reverse_onto acc [] = omega arith
length-reverse_onto acc (c ∷ cs) = omega (arith, length-reverse_onto (c ∷ acc) cs)

pub length-trim_space : (s : List ℕ) → length (trim_space s) ≤ length s
unfolding trim_space
length-trim_space s =
    let a = trim_after space_tail zero s in
    let b = trim_after space_tail_back zero (reverse_onto [] a) in
    omega (
      arith,
      length-trim_after space_tail zero s,
      length-reverse_onto [] a,
      length-trim_after space_tail_back zero (reverse_onto [] a),
      length-reverse_onto [] b,
    )

abbrev Packed : ℕ → Packer → Type 0
Packed max p = All (Short max) p.chunks × Short max p.current

Packed-flush : (max : ℕ) (p : Packer) → Packed max p → Packed max (flush p)
unfolding flush
Packed-flush max p h = elim (Bool-cases (is_empty (trim_space p.current))) [
  | inl e ↦ rw (e) (h.0, omega arith)
  | inr e ↦ rw (e) (
    All-append max p.chunks (trim_space p.current ∷ []) h.0
        (omega (arith, length-trim_space p.current, h.1), tt),
    omega arith,
  )
]

Short-flush : (max : ℕ) (p : Packer) → Packed max p → All (Short max) (flush p).chunks
Short-flush max p h = (Packed-flush max p h).0

Packed-append_part :
    (max : ℕ) (s : List ℕ) (p : Packer)
    → Short max s
    → Packed max p
    → Packed max (append_part max s p)
unfolding append_part
Packed-append_part max s p k h =
    let part = trim_space s in
    let prefix = prefix_of p.heading part in
    let le : length part ≤ max = omega (arith, length-trim_space s, k) in
    elim (Bool-cases (is_empty part)) [
      | inl e ↦ rw (e) h
      | inr e ↦
          elim (Bool-cases
            (ltb max (length p.current + (if is_empty p.current then 0 else 2) + length part))) [
              | inl g ↦
                  rw (e, g) (Short-flush max p h, ground (arith, length-append prefix part, le))
              | inr g ↦ rw (e, g) (h.0, ground (arith, length-append p.current part))
            ]
    ]

Packed-append_parts :
    (max : ℕ) (ss : List (List ℕ)) (p : Packer)
    → All (Short max) ss
    → Packed max p
    → Packed max (append_parts max ss p)
unfolding append_parts
Packed-append_parts max [] p k h = h
Packed-append_parts max (s ∷ ss) p k h =
    Packed-append_parts max ss (append_part max s p) k.1 (Packed-append_part max s p k.0 h)

part_limit_le : (max : ℕ) (heading block : List ℕ) → part_limit max heading block ≤ max
unfolding part_limit
part_limit_le max heading block = ground arith

Packed-add_block :
    (sha256 : List ℕ → List ℕ) (max : ℕ) (block : List ℕ) (p : Packer)
    → 4 ≤ max
    → Packed max p
    → Packed max (add_block sha256 max block p)
unfolding add_block
Packed-add_block sha256 max block p k h =
    let s = trim_space block in
    let heading = if is_heading s then first_line s else p.heading in
    elim (Bool-cases (is_empty s || one_of (sha256 s) p.seen)) [
      | inl e ↦ rw (e) h
      | inr e ↦ rw (e) (
          Packed-append_parts max (split_oversized_block s (part_limit max heading s))
            (record p { heading = heading; seen = sha256 s ∷ p.seen })
            (Short-split_oversized_block max (part_limit max heading s) s
              (part_limit_le max heading s) k)
            h)
    ]

Packed-add_blocks :
    (sha256 : List ℕ → List ℕ) (max : ℕ) (blocks : List (List ℕ)) (p : Packer)
    → 4 ≤ max
    → Packed max p
    → Packed max (add_blocks sha256 max blocks p)
unfolding add_blocks
Packed-add_blocks sha256 max [] p k h = h
Packed-add_blocks sha256 max (b ∷ bs) p k h =
    Packed-add_blocks sha256 max bs (add_block sha256 max b p) k
      (Packed-add_block sha256 max b p k h)

-- The hard limit: with a limit of at least four bytes no chunk of a page is longer, headings
-- that chunks repeat included, whatever the page and the hash are.
pub Short-split_semantic_markdown :
    (sha256 : List ℕ → List ℕ) (text : List ℕ) (max : ℕ)
    → 4 ≤ max
    → All (Short max) (split_semantic_markdown sha256 text max)
unfolding split_semantic_markdown
Short-split_semantic_markdown sha256 text max k =
    let content = trim_space text in
    let blocks = markdown_blocks content in
    elim (Bool-cases (is_empty content)) [
      | inl e ↦ rw (e) (omega arith, tt)
      | inr e ↦ elim (Bool-cases (max == 0 || leb (length content) max)) [
        | inl g ↦ rw (e, g) (ground arith, tt)
        | inr g ↦
            rw (e, g)
              (Short-flush max (add_blocks sha256 max blocks new_packer)
                (Packed-add_blocks sha256 max blocks new_packer k (tt, omega arith)))
      ]
    ]

-- The budget fits: where the context holds the schema, 512 tokens of overhead, 256 of input and,
-- for the output, both 512 and a quarter of the context, the input at three bytes for a token, the output, the schema and the overhead fill
-- no more than the context, the output has 512 tokens at least and a configured limit is kept.
pub context_budget_fits :
    (context configured schema_bytes : ℕ)
    → (schema_bytes + 2) / 3 + 1280 ≤ context
    → (schema_bytes + 2) / 3 + 768 + context / 4 ≤ context
    → ((context_budget context configured schema_bytes).0 / 3
          + (context_budget context configured schema_bytes).1
          + 512
          + (schema_bytes + 2) / 3
        ≤ context)
      × (512 ≤ (context_budget context configured schema_bytes).1)
      × (1 ≤ configured → (context_budget context configured schema_bytes).0 ≤ configured)
unfolding context_budget
context_budget_fits context configured schema_bytes h k = ground arith
