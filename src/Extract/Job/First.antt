-- ===== src/Extract/Job/First.antt =====
-- internal/jobs/extract.go: what deduplicateByKey keeps of a list, stated apart from it.
use shiori_server.Prelude.{
  ◌≡◌, ◌≢◌, refl, String, true, Option, none, some, List, [], ◌∷◌, arith, inl, inr, str_eq, eq_iff,
  sym, ap, ◌∙◌, In, if◌then◌else◌, Bool-cases,
}
use shiori_server.Extract.Merge.{Item, one_of, key_of, dedup}

-- What an entry is told apart by: its url, or its JSON text where it has none or an empty one.
pub data Names : Item → String → Type 0 where
  by_url : (i : Item) (u : String) → i.url ≡ some u → u ≢ "" → Names i u
  without_url : (i : Item) → i.url ≡ none → Names i i.encoded
  empty_url : (i : Item) → i.url ≡ some "" → Names i i.encoded

-- The second list is of the first one the entries whose names are not among those seen and not
-- those of entries before them.
pub data FirstOf : List String → List Item → List Item → Type 0 where
  done : (seen : List String) → FirstOf seen [] []
  first :
      (seen : List String) (i : Item) (k : String) (is js : List Item)
      → Names i k
      → ¬ In k seen
      → FirstOf (k ∷ seen) is js
      → FirstOf seen (i ∷ is) (i ∷ js)
  repeated :
      (seen : List String) (i : Item) (k : String) (is js : List Item)
      → Names i k
      → In k seen
      → FirstOf (k ∷ seen) is js
      → FirstOf seen (i ∷ is) js

Names-name :
    (i : Item) (o : Option String)
    → i.url ≡ o
    → Names i (elim o [ none ↦ i.encoded | some u ↦ if str_eq u "" then i.encoded else u ])
Names-name i none e = without_url i e
Names-name i (some u) e = elim (Bool-cases (str_eq u "")) [
  | inl blank ↦
      let same : u ≡ "" = (eq_iff u "").0 blank in
      rw blank (empty_url i (e ∙ ap (λ t. some t) same))
  | inr text ↦ rw text (by_url i u e (ground (arith, text, eq_iff u "")))
]

Names-key_of : (i : Item) → Names i (key_of i)
unfolding key_of
Names-key_of i = Names-name i i.url refl

one_of-In : (k : String) (seen : List String) → one_of k seen ≡ true → In k seen
one_of-In k [] h = cc h
one_of-In k (s ∷ ss) h = elim (Bool-cases (str_eq s k)) [
  | inl e ↦ inl (sym ((eq_iff s k).0 e))
  | inr e ↦ inr (one_of-In k ss (rw e at h))
]

In-one_of : (k : String) (seen : List String) → In k seen → one_of k seen ≡ true
In-one_of k [] h = absurd h
In-one_of k (s ∷ ss) (inl e) = rw ((eq_iff s k).1 (sym e)) refl
In-one_of k (s ∷ ss) (inr m) = ground (arith, In-one_of k ss m)

pub dedup-FirstOf : (seen : List String) (is : List Item) → FirstOf seen is (dedup seen is)
unfolding dedup
dedup-FirstOf seen [] = done seen
dedup-FirstOf seen (i ∷ is) = elim (Bool-cases (one_of (key_of i) seen)) [
  | inl e ↦ rw e (
      repeated seen i (key_of i) is (dedup (key_of i ∷ seen) is) (Names-key_of i)
        (one_of-In (key_of i) seen e) (dedup-FirstOf (key_of i ∷ seen) is))
  | inr e ↦ rw e (
      first seen i (key_of i) is (dedup (key_of i ∷ seen) is) (Names-key_of i)
        (λ m. cc (e, In-one_of (key_of i) seen m)) (dedup-FirstOf (key_of i ∷ seen) is))
]
