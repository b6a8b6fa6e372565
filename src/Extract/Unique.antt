-- ===== src/Extract/Unique.antt =====
-- internal/jobs/extract.go: merging loses no entry, and deduplication only repeated ones.
use shiori_server.Prelude.{
  ◌≡◌, ◌≢◌, refl, sym, ◌∙◌, String, false, Option, none, some, List, [], ◌∷◌, ◌++◌, append-nil,
  arith, ◌⊎◌, inl, inr, str_eq, eq_iff, All, Bool-cases,
}
use shiori_server.Prelude.Map.{find, put, find-put}
use shiori_server.Extract.Merge.{
  Item, Value, items, null, other, Object, merge_entry, merge, key_of, one_of, dedup,
}

-- The list under a key; nothing where there is none.
abbrev pub list_of : Option Value → List Item
list_of none = []
list_of (some (items l)) = l
list_of (some null) = []
list_of (some (other s)) = []

-- A key that no value other than a list or null stands under.
abbrev pub Listed : Option Value → Type 0
Listed none = Unit
Listed (some (items l)) = Unit
Listed (some null) = Unit
Listed (some (other s)) = ⊥

abbrev pub Fresh : String → Object → Type 0
Fresh k = All (λ e. e.0 ≢ k)

-- A Go map has a key once.
abbrev pub IsMap : Object → Type 0
IsMap [] = Unit
IsMap ((k, v) ∷ o) = Fresh k o × IsMap o

pub merge_entry_same :
    (base : Object) (k : String) (v : Value)
    → Listed (find k base)
    → (list_of (find k (merge_entry base k v)) ≡ list_of (find k base) ++ list_of (some v))
      × Listed (find k (merge_entry base k v))
unfolding merge_entry
merge_entry_same base k null h = (sym (append-nil (list_of (find k base))), h)
merge_entry_same base k (other s) h = (sym (append-nil (list_of (find k base))), h)
merge_entry_same base k (items l) h = go (find k base) refl h
  where
    go :
        (o : Option Value)
        → find k base ≡ o
        → Listed o
        → (list_of (find k (merge_entry base k (items l))) ≡ list_of (find k base) ++ l)
          × Listed (find k (merge_entry base k (items l)))
    go none e w = rw (e, merge_entry, find-put k k (items l) base, (eq_iff k k).1 refl) (refl, tt)
    go (some null) e w =
        rw (e, merge_entry, find-put k k (items l) base, (eq_iff k k).1 refl) (refl, tt)
    go (some (items b)) e w =
        rw (e, merge_entry, find-put k k (items (b ++ l)) base, (eq_iff k k).1 refl) (refl, tt)
    go (some (other s)) e w = absurd w

put_other : (base : Object) (j k : String) (v : Value) → j ≢ k → find k (put j v base) ≡ find k base
put_other base j k v h = ground (arith, find-put j k v base, eq_iff j k)

pub merge_entry_other :
    (base : Object) (j k : String) (v : Value) → j ≢ k → find k (merge_entry base j v) ≡ find k base
unfolding merge_entry
merge_entry_other base j k null h = refl
merge_entry_other base j k (other s) h = refl
merge_entry_other base j k (items l) h = go (find j base) refl
  where
    go : (o : Option Value) → find j base ≡ o → find k (merge_entry base j (items l)) ≡ find k base
    go none e = rw (e, merge_entry) (put_other base j k (items l) h)
    go (some null) e = rw (e, merge_entry) (put_other base j k (items l) h)
    go (some (items b)) e = rw (e, merge_entry) (put_other base j k (items (b ++ l)) h)
    go (some (other s)) e = rw (e, merge_entry) refl

pub merge-Fresh :
    (base parsed : Object) (k : String) → Fresh k parsed → find k (merge base parsed) ≡ find k base
unfolding merge
merge-Fresh base [] k h = refl
merge-Fresh base ((j, v) ∷ parsed) k h =
    merge-Fresh (merge_entry base j v) parsed k h.1 ∙ merge_entry_other base j k v h.0

find-Fresh : (o : Object) (k : String) → Fresh k o → find k o ≡ none
find-Fresh [] k h = refl
find-Fresh ((j, v) ∷ o) k h = ground (arith, h.0, eq_iff j k, find-Fresh o k h.1)

-- No page's entries are lost: under a key where the result so far has a list, null or nothing, the
-- merged result has the old entries followed by those of the new page.
pub list_of-merge :
    (base parsed : Object) (k : String)
    → IsMap parsed
    → Listed (find k base)
    → list_of (find k (merge base parsed)) ≡ list_of (find k base) ++ list_of (find k parsed)
unfolding merge
list_of-merge base [] k m h = sym (append-nil (list_of (find k base)))
list_of-merge base ((j, v) ∷ parsed) k m h = elim (Bool-cases (str_eq j k)) [
  | inl e ↦
      let same : j ≡ k = (eq_iff j k).0 e in
      let fresh : Fresh k parsed = rw (← same) m.0 in
      rw
        (
          e,
          merge-Fresh (merge_entry base j v) parsed k fresh,
          same,
          (merge_entry_same base k v h).0,
        )
        refl
  | inr e ↦
      let differs : j ≢ k = ground (arith, e, eq_iff j k) in
      let kept = merge_entry_other base j k v differs in
      rw (e, list_of-merge (merge_entry base j v) parsed k m.1 (rw kept h), kept) refl
]

abbrev Unseen : List String → Item → Type 0
Unseen seen x = one_of (key_of x) seen ≡ false

-- No two entries have a key in common.
abbrev pub IsUnique : List Item → Type 0
IsUnique [] = Unit
IsUnique (x ∷ xs) = All (λ y. key_of y ≢ key_of x) xs × IsUnique xs

-- Some entry of the list has the key.
abbrev pub HasKey : String → List Item → Type 0
HasKey k [] = ⊥
HasKey k (x ∷ xs) = (key_of x ≡ k) ⊎ HasKey k xs

dedup-Unseen : (seen : List String) (xs : List Item) → All (Unseen seen) (dedup seen xs)
unfolding dedup
dedup-Unseen seen [] = tt
dedup-Unseen seen (x ∷ xs) = elim (Bool-cases (one_of (key_of x) seen)) [
  | inl e ↦ rw (e) (weaken (dedup (key_of x ∷ seen) xs) (dedup-Unseen (key_of x ∷ seen) xs))
  | inr e ↦ rw (e) (e, weaken (dedup (key_of x ∷ seen) xs) (dedup-Unseen (key_of x ∷ seen) xs))
]
  where
    weaken : (ys : List Item) → All (Unseen (key_of x ∷ seen)) ys → All (Unseen seen) ys
    weaken [] h = tt
    weaken (y ∷ ys) h = (ground (arith, h.0), weaken ys h.1)

differ :
    (k : String) (seen : List String) (ys : List Item)
    → All (Unseen (k ∷ seen)) ys
    → All (λ y. key_of y ≢ k) ys
differ k seen [] h = tt
differ k seen (y ∷ ys) h = (ground (arith, h.0, eq_iff k (key_of y)), differ k seen ys h.1)

dedup-IsUnique : (seen : List String) (xs : List Item) → IsUnique (dedup seen xs)
unfolding dedup
dedup-IsUnique seen [] = tt
dedup-IsUnique seen (x ∷ xs) = elim (Bool-cases (one_of (key_of x) seen)) [
  | inl e ↦ rw (e) (dedup-IsUnique (key_of x ∷ seen) xs)
  | inr e ↦ rw (e) (
    differ (key_of x) seen (dedup (key_of x ∷ seen) xs) (dedup-Unseen (key_of x ∷ seen) xs),
    dedup-IsUnique (key_of x ∷ seen) xs,
  )
]

dedup_covers :
    (seen : List String) (xs : List Item) (k : String)
    → HasKey k xs
    → one_of k seen ≡ false
    → HasKey k (dedup seen xs)
unfolding dedup
dedup_covers seen [] k h n = h
dedup_covers seen (x ∷ xs) k h n = elim (Bool-cases (str_eq (key_of x) k)) [
  | inl e ↦
      let same : key_of x ≡ k = (eq_iff (key_of x) k).0 e in
      let new : one_of (key_of x) seen ≡ false = rw (same) n in rw (new) (inl same)
  | inr e ↦
      let rest : HasKey k xs = elim h [
        | inl same ↦ absurd (ground (arith, e, same, eq_iff (key_of x) k))
        | inr later ↦ later
      ] in
      let found = dedup_covers (key_of x ∷ seen) xs k rest (ground (arith, e, n)) in
      elim (Bool-cases (one_of (key_of x) seen)) [
        | inl g ↦ rw (g) found
        | inr g ↦ rw (g) (inr found)
      ]
]

-- Deduplication leaves each key once: no two entries of the new list share a key, which is the url
-- or else the JSON text, and each key of the old list is still there.
pub dedup_lem :
    (xs : List Item)
    → IsUnique (dedup [] xs) × ((k : String) → HasKey k xs → HasKey k (dedup [] xs))
dedup_lem xs = (dedup-IsUnique [] xs, λ k h. dedup_covers [] xs k h refl)
