-- ===== src/Json/Reading.antt =====
-- JSON text read character by character, apart from internal/extraction/nuextract/provider.go: when
-- every string and every bracket of a text is closed. 34 is the double quote and 92 the backslash.
use shiori_server.Prelude.{ℕ, ◌≡◌, ◌≢◌, false, List, [], ◌∷◌, arith, inl, inr, ◌==◌, Bool-cases}
use shiori_server.Json.Repair.{
  Mode, outside, inside, escaped, next_mode, next_stack, pop_if, mode_after, stack_after,
}

-- Where a reader stands, with the brackets that are open, as the closing ones that they wait for.
pub data Reader : Type 0 where
  between in_text after_backslash : List ℕ → Reader

-- A character that neither begins a text nor opens nor closes a bracket.
abbrev pub IsPlain : ℕ → Type 0
IsPlain c = (c ≢ b'{') × (c ≢ b'}') × (c ≢ b'[') × (c ≢ b']') × (c ≢ 34)

-- What one character does. A closing bracket that does not answer the innermost open one is passed
-- over.
pub data Step : Reader → ℕ → Reader → Type 0 where
  object : (k : List ℕ) → Step (between k) b'{' (between (b'}' ∷ k))
  array : (k : List ℕ) → Step (between k) b'[' (between (b']' ∷ k))
  object_end : (k : List ℕ) → Step (between (b'}' ∷ k)) b'}' (between k)
  array_end : (k : List ℕ) → Step (between (b']' ∷ k)) b']' (between k)
  stray_brace : Step (between []) b'}' (between [])
  stray_bracket : Step (between []) b']' (between [])
  wrong_brace : (d : ℕ) (k : List ℕ) → d ≢ b'}' → Step (between (d ∷ k)) b'}' (between (d ∷ k))
  wrong_bracket : (d : ℕ) (k : List ℕ) → d ≢ b']' → Step (between (d ∷ k)) b']' (between (d ∷ k))
  plain : (c : ℕ) (k : List ℕ) → IsPlain c → Step (between k) c (between k)
  text_begin : (k : List ℕ) → Step (between k) 34 (in_text k)
  text_end : (k : List ℕ) → Step (in_text k) 34 (between k)
  backslash : (k : List ℕ) → Step (in_text k) 92 (after_backslash k)
  letter : (c : ℕ) (k : List ℕ) → c ≢ 34 → c ≢ 92 → Step (in_text k) c (in_text k)
  any_letter : (c : ℕ) (k : List ℕ) → Step (after_backslash k) c (in_text k)

pub data Reads : Reader → List ℕ → Reader → Type 0 where
  stay : (r : Reader) → Reads r [] r
  step : {r t u : Reader} (c : ℕ) (cs : List ℕ) → Step r c t → Reads t cs u → Reads r (c ∷ cs) u

-- The text ends outside of strings with every bracket closed.
abbrev pub IsClosed : List ℕ → Type 0
IsClosed s = Reads (between []) s (between [])

-- The reader at the flags and the stack of repairTruncated.
abbrev reader : Mode → List ℕ → Reader
reader outside k = between k
reader inside k = in_text k
reader escaped k = after_backslash k

Step-brace : (k : List ℕ) → Step (between k) b'}' (between (pop_if b'}' k))
Step-brace [] = stray_brace
Step-brace (d ∷ k) = elim (Bool-cases (d == b'}')) [
  | inl e ↦ let same : d ≡ b'}' = ground (arith, e) in rw same (object_end k)
  | inr e ↦ rw e (wrong_brace d k (ground (arith, e)))
]

Step-bracket : (k : List ℕ) → Step (between k) b']' (between (pop_if b']' k))
Step-bracket [] = stray_bracket
Step-bracket (d ∷ k) = elim (Bool-cases (d == b']')) [
  | inl e ↦ let same : d ≡ b']' = ground (arith, e) in rw same (array_end k)
  | inr e ↦ rw e (wrong_bracket d k (ground (arith, e)))
]

Step-other :
    (c : ℕ) (k : List ℕ)
    → (c == b'{') ≡ false
    → (c == b'}') ≡ false
    → (c == b'[') ≡ false
    → (c == b']') ≡ false
    → Step (between k) c (reader (next_mode outside c) (next_stack outside c k))
Step-other c k a b d e = elim (Bool-cases (c == 34)) [
  | inl q ↦ let same : c ≡ 34 = ground (arith, q) in rw same (text_begin k)
  | inr q ↦
      rw (a, b, d, e, q)
        (plain c k (
          ground (arith, a),
          ground (arith, b),
          ground (arith, d),
          ground (arith, e),
          ground (arith, q),
        ))
]

Step-reader :
    (m : Mode) (c : ℕ) (k : List ℕ)
    → Step (reader m k) c (reader (next_mode m c) (next_stack m c k))
Step-reader escaped c k = any_letter c k
Step-reader inside c k = elim (Bool-cases (c == 92)) [
  | inl e ↦ let same : c ≡ 92 = ground (arith, e) in rw same (backslash k)
  | inr e ↦ elim (Bool-cases (c == 34)) [
    | inl q ↦ let same : c ≡ 34 = ground (arith, q) in rw same (text_end k)
    | inr q ↦ rw (e, q) (letter c k (ground (arith, q)) (ground (arith, e)))
  ]
]
Step-reader outside c k = elim (Bool-cases (c == b'{')) [
  | inl e ↦ let same : c ≡ b'{' = ground (arith, e) in rw same (object k)
  | inr a ↦ elim (Bool-cases (c == b'[')) [
    | inl e ↦ let same : c ≡ b'[' = ground (arith, e) in rw same (array k)
    | inr d ↦ elim (Bool-cases (c == b'}')) [
      | inl e ↦ let same : c ≡ b'}' = ground (arith, e) in rw same (Step-brace k)
      | inr b ↦ elim (Bool-cases (c == b']')) [
        | inl e ↦ let same : c ≡ b']' = ground (arith, e) in rw same (Step-bracket k)
        | inr e ↦ Step-other c k a b d e
      ]
    ]
  ]
]

-- The loop of repairTruncated reads as the reader does.
pub Reads-reader :
    (m : Mode) (k s : List ℕ) → Reads (reader m k) s (reader (mode_after m s) (stack_after m k s))
unfolding mode_after stack_after
Reads-reader m k [] = stay (reader m k)
Reads-reader m k (c ∷ cs) =
    step c cs (Step-reader m c k) (Reads-reader (next_mode m c) (next_stack m c k) cs)

pub scanned-IsClosed :
    (s : List ℕ) → mode_after outside s ≡ outside → stack_after outside [] s ≡ [] → IsClosed s
scanned-IsClosed s m k =
    let h : Reads (between []) s (reader (mode_after outside s) (stack_after outside [] s)) =
      Reads-reader outside [] s in
    rw (m, k) at h
