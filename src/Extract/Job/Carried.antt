-- ===== src/Extract/Job/Carried.antt =====
-- internal/jobs/extract.go: the entries that a turn of the loop carries on from its page.
use shiori_server.Prelude.{
  ℕ, zero, suc, ◌≡◌, ◌≢◌, refl, sym, ap, ◌∙◌, String, Bool, true, false, Option, none, some, List,
  [], ◌∷◌, ◌++◌, append-nil, arith, inl, inr, str_eq, eq_iff, if◌then◌else◌, Bool-cases,
}
use shiori_server.Prelude.Map.{find}
use shiori_server.Extract.Visit.{Visit, failed, opened, visit}
use shiori_server.Extract.Merge.{
  Item, Value, items, null, other, Object, merge_entry, merge, combine, dedup, dedup_value,
  dedup_all,
}
use shiori_server.Extract.Paging.{next_page}
use shiori_server.Extract.Unique.{
  list_of, Listed, IsMap, Fresh, merge_entry_same, merge-Fresh, merge_entry_other, list_of-merge,
}
use shiori_server.Extract.Job.{
  JobEvent, Extraction, ai_failed, not_json, parsed, PageTurn, Loop, Turned, stopped, again,
  finished, next_turn, extracted, after_login, read_page, page_turn,
}

merge-Listed :
    (base page : Object) (k : String)
    → IsMap page
    → Listed (find k base)
    → Listed (find k (merge base page))
unfolding merge
merge-Listed base [] k m h = h
merge-Listed base ((j, v) ∷ page) k m h = elim (Bool-cases (str_eq j k)) [
  | inl e ↦
      let same : j ≡ k = (eq_iff j k).0 e in
      let fresh : Fresh k page = rw (← same) m.0 in
      rw (merge-Fresh (merge_entry base j v) page k fresh, same) (merge_entry_same base k v h).1
  | inr e ↦
      let differs : j ≢ k = ground (arith, e, eq_iff j k) in
      merge-Listed (merge_entry base j v) page k m.1 (rw (merge_entry_other base j k v differs) h)
]

-- The entries under a key.
abbrev pub entries : String → Object → List Item
entries k o = list_of (find k o)

abbrev pub all_entries : String → List Object → List Item
all_entries k [] = []
all_entries k (o ∷ os) = entries k o ++ all_entries k os

pub entries-dedup_all : (k : String) (o : Object) → entries k (dedup_all o) ≡ dedup [] (entries k o)
unfolding dedup_all dedup
entries-dedup_all k [] = refl
entries-dedup_all k ((j, v) ∷ o) = elim (Bool-cases (str_eq j k)) [
  | inl e ↦ rw e (value v)
  | inr e ↦ rw e (entries-dedup_all k o)
]
  where
    value : (v : Value) → list_of (some (dedup_value v)) ≡ dedup [] (list_of (some v))
    value (items l) = refl
    value null = refl
    value (other s) = refl

-- The page that a turn reads, if it comes to that.
abbrev pub page_of : Bool → Visit → Extraction → List Object
page_of login_phase (failed title) x = []
page_of true (opened snap confirmed) x = []
page_of false (opened snap confirmed) ai_failed = []
page_of false (opened snap confirmed) not_json = []
page_of false (opened snap confirmed) (parsed page link is_unit) = page ∷ []

abbrev pub follow : (Loop → List Object) → Turned → List Object
follow next (stopped title) = []
follow next (again st) = next st
follow next (finished merged) = []

-- The pages that a job reads, in order.
unfoldable pub pages_read : ℕ → List ℕ → (ℕ → PageTurn) → ℕ → Loop → List Object
pages_read zero url world i st = []
pages_read (suc fuel) url world i st =
    page_of st.login_phase (visit st.login_phase st.confirmed (world i).answers).0
      (world i).extraction
    ++ follow (pages_read fuel url world (suc i)) (page_turn url (world i) st).0

-- Each page is a Go map, with a list or nothing under the key.
abbrev pub IsPage : String → Extraction → Type 0
IsPage k ai_failed = Unit
IsPage k not_json = Unit
IsPage k (parsed page link is_unit) = IsMap page × Listed (find k page)

abbrev pub so_far : String → Option Object → List Item
so_far k none = []
so_far k (some o) = entries k o

abbrev pub ListedResult : String → Option Object → Type 0
ListedResult k none = Unit
ListedResult k (some o) = Listed (find k o)

-- A turn that goes on, or that ends the loop, has these entries.
abbrev pub Carries : String → List Item → Turned → Type 0
Carries k l (stopped title) = Unit
Carries k l (again st) = (so_far k st.result ≡ l) × ListedResult k st.result
Carries k l (finished merged) = entries k merged ≡ l

combine-Listed :
    (k : String) (result : Option Object) (page : Object)
    → IsMap page × Listed (find k page)
    → ListedResult k result
    → (entries k (combine result page) ≡ so_far k result ++ (entries k page ++ []))
      × Listed (find k (combine result page))
unfolding combine
combine-Listed k none page h r = (sym (append-nil (entries k page)), h.1)
combine-Listed k (some base) page h r = (
  list_of-merge base page k h.0 r
      ∙ ap (λ l. entries k base ++ l) (sym (append-nil (entries k page))),
  merge-Listed base page k h.0 r,
)

next_turn-Carries :
    (k : String) (st : Loop) (confirmed : Bool) (merged : Object) (l : List Item)
    (o : Option (List ℕ))
    → entries k merged ≡ l
    → Listed (find k merged)
    → Carries k l (next_turn st confirmed merged o)
next_turn-Carries k st confirmed merged l none e h = e
next_turn-Carries k st confirmed merged l (some url) e h = (e, h)

pub read_page-Carries :
    (k : String) (url : List ℕ) (t : PageTurn) (st : Loop) (v : Visit)
    → IsPage k t.extraction
    → ListedResult k st.result
    → Carries k
        (so_far k st.result ++ all_entries k (page_of st.login_phase v t.extraction))
        (read_page url t st v).0
read_page-Carries k url t st (failed title) h r = tt
read_page-Carries k url t st (opened snap confirmed) h r = go st.login_phase t.extraction _ _ h
  where
    go :
        (b : Bool) (x : Extraction) (es es' : List JobEvent)
        → IsPage k x
        → Carries k
            (so_far k st.result ++ all_entries k (page_of b (opened snap confirmed) x))
            (if◌then◌else◌ {A = Turned × List JobEvent} b
              (after_login url st confirmed, es)
              (extracted st confirmed x, es')).0
    go true x es es' p = (sym (append-nil (so_far k st.result)), r)
    go false ai_failed es es' p = tt
    go false not_json es es' p = tt
    go false (parsed page link is_unit) es es' p =
        let both = combine-Listed k st.result page p r in
        next_turn-Carries k st confirmed (combine st.result page) _
          (next_page st.current link is_unit st.visited) both.0 both.1
