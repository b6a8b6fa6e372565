-- ===== src/Extract/Merge.antt =====
-- internal/jobs/extract.go: how the results of the pages become one result, and how its lists lose
-- their repeated entries. A result is a JSON object.
use shiori_server.Prelude.{
  String, Bool, false, ◌||◌, Option, none, some, List, [], ◌∷◌, ◌++◌, str_eq, if◌then◌else◌,
}
use shiori_server.Prelude.Map.{find, put}

-- An entry of a list: its `url` where it is an object that has a text there, and its JSON text.
pub record Item : Type 0 where
  pub url : Option String
  pub encoded : String

pub data Value : Type 0 where
  items : List Item → Value
  null : Value
  other : String → Value

abbrev pub Object : Type 0
Object = List (String × Value)

-- One turn of the loop over the entries of a page's result: a list is appended to the one that is
-- there, or put where there is none; anything else is left out.
unfoldable pub merge_entry : Object → String → Value → Object
merge_entry base k null = base
merge_entry base k (other s) = base
merge_entry base k (items l) = elim (find k base) [
  | none ↦ put k (items l) base
  | some v ↦ elim v [
    | items b ↦ put k (items (b ++ l)) base
    | null ↦ put k (items l) base
    | other s ↦ base
  ]
]

unfoldable pub merge : Object → Object → Object
unfolding merge_entry
merge base [] = base
merge base ((k, v) ∷ parsed) = merge (merge_entry base k v) parsed

-- The first page's result is taken as it is.
unfoldable pub combine : Option Object → Object → Object
unfolding merge
combine none parsed = parsed
combine (some base) parsed = merge base parsed

unfoldable pub key_of : Item → String
key_of i = elim i.url [ none ↦ i.encoded | some u ↦ if str_eq u "" then i.encoded else u ]

abbrev pub one_of : String → List String → Bool
one_of k [] = false
one_of k (s ∷ ss) = str_eq s k || one_of k ss

-- The loop over a list, with the keys seen before. A key that is seen is put among them once more,
-- which the set does not notice.
unfoldable pub dedup : List String → List Item → List Item
unfolding key_of
dedup seen [] = []
dedup seen (x ∷ xs) =
    let rest = dedup (key_of x ∷ seen) xs in if one_of (key_of x) seen then rest else x ∷ rest

abbrev pub dedup_value : Value → Value
dedup_value (items l) = items (dedup [] l)
dedup_value null = null
dedup_value (other s) = other s

unfoldable pub dedup_all : Object → Object
unfolding dedup
dedup_all [] = []
dedup_all ((k, v) ∷ o) = (k, dedup_value v) ∷ dedup_all o
