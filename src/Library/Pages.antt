-- ===== src/Library/Pages.antt =====
-- internal/library/sqlite/features.go: what a client that follows the cursors sees.
use shiori_server.Prelude.{
  ℕ, zero, suc, ◌+◌, ◌-◌, ◌≤◌, ◌<◌, ◌≡◌, refl, Bool, sym, ap, ◌∙◌, true, false, none, some, Option,
  List, [], ◌∷◌, append-nil, arith, inl, inr, ltb, Bool-cases, length, take, drop, concat,
  take-drop, length-drop, take_all, length-take, take-take, All,
}
use shiori_server.Prelude.Rows.{select, row, Keyed}
use shiori_server.Prelude.Tables.{select-All}
use shiori_server.Library.Types.{Media, Result, ok}
use shiori_server.Library.Page.{
  page_limit, below, last_key, cut_page, descending, key_page, all_pages,
}
use shiori_server.Library.Walk.{
  length-descending, row-descending, select_all, select-select, Falls, descending-Falls,
  select-Falls, last_key-take, after_page,
}

page_limit_pos : (n : ℕ) → (l : ℕ) × (page_limit n ≡ suc l)
unfolding page_limit
page_limit_pos n = (page_limit n - 1, ground arith)

module _ {A : Type 0} (key : A → ℕ) where
  abbrev rest_of : Option ℕ → List A → List A
  rest_of cursor s = select (λ x. below cursor (key x)) s

  cut_short :
      (l : ℕ) (t : List A)
      → length t ≤ suc l
      → cut_page key (suc l) (take (suc (suc l)) t) ≡ (t, none)
  unfolding cut_page
  cut_short l t h =
      let all : take (suc (suc l)) t ≡ t = take_all (suc (suc l)) t (omega (arith, h)) in
      let no : ltb (suc l) (length t) ≡ false = ground (arith, h) in rw (all, no) refl

  cut_long :
      (l : ℕ) (t : List A)
      → suc l < length t
      → cut_page key (suc l) (take (suc (suc l)) t) ≡ (take (suc l) t, last_key key (suc l) t)
  unfolding cut_page
  cut_long l t h =
      let len : length (take (suc (suc l)) t) ≡ suc (suc l) =
        length-take (suc (suc l)) t (omega (arith, h)) in
      let yes : ltb (suc l) (length (take (suc (suc l)) t)) ≡ true = ground (arith, len) in
      rw (yes, take-take (suc l) t, last_key-take key (suc l) t) refl

  -- Below the key of a row that a cursor admits, the rows are those that the cursor admits.
  rest-rest :
      (cursor : Option ℕ) (k : ℕ) (s : List A)
      → below cursor k ≡ true
      → rest_of (some k) (rest_of cursor s) ≡ rest_of (some k) s
  rest-rest none k s h = select-select (λ x. ltb (key x) k) (λ x. true) s (λ x e. refl)
  rest-rest (some c) k s h =
      select-select (λ x. ltb (key x) k) (λ x. ltb (key x) c) s (λ x e. ground (arith, e, h))

  page_short :
      (n l : ℕ) (cursor : Option ℕ) (rows : List A)
      → page_limit n ≡ suc l
      → length (rest_of cursor (descending key rows)) ≤ suc l
      → key_page key n cursor rows ≡ (rest_of cursor (descending key rows), none)
  unfolding key_page
  page_short n l cursor rows size h =
      let plus : suc l + 1 ≡ suc (suc l) = omega arith in
      rw (size, plus) (cut_short l (rest_of cursor (descending key rows)) h)

  page_long :
      (n l : ℕ) (cursor : Option ℕ) (rows : List A)
      → page_limit n ≡ suc l
      → suc l < length (rest_of cursor (descending key rows))
      → key_page key n cursor rows ≡ (
        take (suc l) (rest_of cursor (descending key rows)),
        last_key key (suc l) (rest_of cursor (descending key rows)),
      )
  unfolding key_page
  page_long n l cursor rows size h =
      let plus : suc l + 1 ≡ suc (suc l) = omega arith in
      rw (size, plus) (cut_long l (rest_of cursor (descending key rows)) h)

  concat-all_pages :
      (ask : Option ℕ → Result (List A × Option ℕ)) (n : ℕ) (rows : List A)
      → ((cursor : Option ℕ) → ask cursor ≡ ok (key_page key n cursor rows))
      → Falls key (descending key rows)
      → (fuel : ℕ) (cursor : Option ℕ) → length (rest_of cursor (descending key rows)) < fuel
      → (pages : List (List A)) × (all_pages ask fuel cursor ≡ some pages)
        × (concat pages ≡ rest_of cursor (descending key rows))
  unfolding all_pages
  concat-all_pages ask n rows answer f zero cursor enough = absurd (omega (arith, enough))
  concat-all_pages ask n rows answer f (suc fuel) cursor enough =
      let s = descending key rows in
      let t = rest_of cursor s in
      let (l, size) = page_limit_pos n in
      elim (Bool-cases (ltb (suc l) (length t))) [
        | inr short ↦
            let page : key_page key n cursor rows ≡ (t, none) =
              page_short n l cursor rows size (ground (arith, short)) in
            (t ∷ [], rw (answer cursor, page) refl, append-nil t)
        | inl long ↦
            let more : suc l < length t = ground (arith, long) in
            let falls : Falls key t = select-Falls key (λ x. below cursor (key x)) s f in
            let (k, last, after, inside) = after_page key l t falls (omega (arith, more)) in
            let admitted : below cursor k ≡ true =
              inside (λ i. below cursor i ≡ true) (select-All (λ x. below cursor (key x)) s) in
            let tail : rest_of (some k) s ≡ drop (suc l) t =
              sym (rest-rest cursor k s admitted) ∙ after in
            let shorter : length (rest_of (some k) s) < fuel =
              rw tail (omega (arith, length-drop (suc l) t, enough, more)) in
            let page : key_page key n cursor rows ≡ (take (suc l) t, some k) =
              page_long n l cursor rows size more ∙ ap (λ c. (take (suc l) t, c)) last in
            let (rest, ends, joined) = concat-all_pages ask n rows answer f fuel (some k) shorter in
            (
              take (suc l) t ∷ rest,
              rw (answer cursor, page, ends) refl,
              rw (joined, tail) (take-drop (suc l) t),
            )
      ]

  -- The requests reach the end of the listing, and put together they gave rows in falling order, the
  -- same row for each key as a table has.
  abbrev pub Once : List A → Option (List (List A)) → Type 0
  Once rows answers =
      (pages : List (List A)) × (answers ≡ some pages)
      × Falls key (concat pages)
      × ((i : ℕ) → row key i (concat pages) ≡ row key i rows)

  pub Once-all_pages :
      (ask : Option ℕ → Result (List A × Option ℕ)) (n : ℕ) (rows : List A)
      → ((cursor : Option ℕ) → ask cursor ≡ ok (key_page key n cursor rows))
      → Keyed key rows
      → Once rows (all_pages ask (suc (length rows)) none)
  Once-all_pages ask n rows answer h =
      let f : Falls key (descending key rows) = descending-Falls key rows h in
      let s = descending key rows in
      let all : rest_of none s ≡ s = select_all (λ x. true) s (All-true s) in
      let enough : length (rest_of none s) < suc (length rows) =
        rw all (omega (arith, length-descending key rows)) in
      let (pages, ends, joined) =
        concat-all_pages ask n rows answer f (suc (length rows)) none enough in
      (pages, ends, rw (joined, all) f, λ i. rw (joined, all) (row-descending key rows i h))
    where
      All-true : (xs : List A) → All (λ x. ◌≡◌ {A = Bool} true true) xs
      All-true [] = tt
      All-true (x ∷ xs) = (refl, All-true xs)
