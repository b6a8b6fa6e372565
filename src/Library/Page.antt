-- ===== src/Library/Page.antt =====
-- internal/library/sqlite/features.go: the pages of a listing. A page asks for one row more than it
-- shows, and the next cursor is the key of its last row.
use shiori_server.Prelude.{
  ℕ, zero, suc, ◌+◌, Bool, true, Option, none, some, List, [], ◌∷◌, ltb, if◌then◌else◌, length,
  take,
}
use shiori_server.Prelude.Rows.{select, order_by}
use shiori_server.Library.Types.{Result, ok, err}

-- A limit below 1 stands as 0.
unfoldable pub page_limit : ℕ → ℕ
page_limit n = if ltb n 1 then 50 else if ltb 100 n then 100 else n

-- WHERE (? = '' OR id < ?); an empty cursor is none.
abbrev pub below : Option ℕ → ℕ → Bool
below none i = true
below (some c) i = ltb i c

module _ {A : Type 0} (key : A → ℕ) where
  -- The key of items[limit-1].
  abbrev pub last_key : ℕ → List A → Option ℕ
  last_key n [] = none
  last_key zero (x ∷ xs) = none
  last_key (suc zero) (x ∷ xs) = some (key x)
  last_key (suc (suc n)) (x ∷ xs) = last_key (suc n) xs

  -- The items of the page and the next cursor, of the rows that the query gave.
  unfoldable pub cut_page : ℕ → List A → List A × Option ℕ
  cut_page limit rows =
      if ltb limit (length rows) then (take limit rows, last_key limit rows) else (rows, none)

  -- SELECT … WHERE (? = '' OR key < ?) ORDER BY key DESC LIMIT ?: the order does not depend on the
  -- test, so that it is made first.
  unfoldable pub descending : List A → List A
  descending rows = order_by (λ a b. ltb (key b) (key a)) rows

  unfoldable pub key_page : ℕ → Option ℕ → List A → List A × Option ℕ
  unfolding page_limit cut_page descending
  key_page n cursor rows =
      let limit = page_limit n in
      cut_page limit (take (limit + 1) (select (λ x. below cursor (key x)) (descending rows)))

-- Asking for page after page, each with the cursor of the one before, until there is no further
-- cursor; none where an answer is an error or the given number of requests does not reach the end.
module _ {A : Type 0} where
  abbrev pub put_first : List A → Option (List (List A)) → Option (List (List A))
  put_first items none = none
  put_first items (some rest) = some (items ∷ rest)

  abbrev pub follow :
      (ℕ → Option (List (List A))) → Result (List A × Option ℕ) → Option (List (List A))
  follow next (err e) = none
  follow next (ok (items, none)) = some (items ∷ [])
  follow next (ok (items, some c)) = put_first items (next c)

  unfoldable pub all_pages :
      (Option ℕ → Result (List A × Option ℕ)) → ℕ → Option ℕ → Option (List (List A))
  all_pages ask zero cursor = none
  all_pages ask (suc fuel) cursor = follow (λ c. all_pages ask fuel (some c)) (ask cursor)
