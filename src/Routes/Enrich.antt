-- ===== src/Routes/Enrich.antt =====
-- internal/jobs/unit_urls.go: the chapters of a page's result and the URLs that were found on the
-- page (enrichExtractedUnitURLs, normalizeUnitNumber). What discoverUnitURLs finds is given. A text
-- is the list of its bytes.
use shiori_server.Prelude.{ℕ, ◌||◌, List, [], ◌∷◌, ◌++◌, map, ◌==◌, if◌then◌else◌}
use shiori_server.Chunker.Text.{trim_space, same}
use shiori_server.Chunker.Markdown.{is_empty, one_of}

-- extractedUnit: a chapter that the page proves a URL for.
pub record Discovered : Type 0 where
  pub number : List ℕ
  pub title : List ℕ
  pub url : List ℕ

-- An entry of the list: the texts of `number`, `title` and `url` in an object, empty where the
-- object has none, or a value that is no object.
pub data Entry : Type 0 where
  object : List ℕ → List ℕ → List ℕ → Entry
  no_object : Entry

-- strings.ReplaceAll(number, ",", ".")
unfoldable pub with_points : List ℕ → List ℕ
with_points [] = []
with_points (c ∷ cs) = (if c == b',' then b'.' else c) ∷ with_points cs

-- strings.TrimLeft(number, "0")
unfoldable pub without_zeros : List ℕ → List ℕ
without_zeros [] = []
without_zeros (c ∷ cs) = let rest = without_zeros cs in if c == b'0' then rest else c ∷ cs

abbrev pub with_zero : List ℕ → List ℕ
with_zero [] = b'0' ∷ []
with_zero (c ∷ cs) = if c == b'.' then b'0' ∷ c ∷ cs else c ∷ cs

unfoldable pub normalize : List ℕ → List ℕ
unfolding with_points without_zeros trim_space
normalize number = with_zero (without_zeros (trim_space (with_points number)))

-- byNumber[number]: the URL that is written last for the number, or the empty text.
unfoldable pub url_of : List ℕ → List ℕ → List Discovered → List ℕ
url_of found number [] = found
url_of found number (d ∷ ds) =
    url_of (if same (normalize d.number) number then d.url else found) number ds

-- scalarString(item["number"]), normalized
unfoldable pub number_in : List ℕ → List ℕ
number_in text = normalize (trim_space text)

unfoldable pub fill : List Discovered → Entry → Entry
fill ds no_object = no_object
fill ds (object number title url) =
    if is_empty (number_in number)
    then object number title url
    else if is_empty (trim_space url)
    then object number title (
        if is_empty (url_of [] (number_in number) ds) then url else url_of [] (number_in number) ds)
    else object number title url

-- The numbers that the first loop has seen.
unfoldable pub seen_in : List Entry → List (List ℕ)
seen_in [] = []
seen_in (no_object ∷ es) = seen_in es
seen_in (object number title url ∷ es) =
    let rest = seen_in es in if is_empty (number_in number) then rest else number_in number ∷ rest

-- The second loop: what it appends.
unfoldable pub missing : List (List ℕ) → List Discovered → List Entry
missing seen [] = []
missing seen (d ∷ ds) =
    let rest = missing seen ds in
    let later = missing (normalize d.number ∷ seen) ds in
    if is_empty (normalize d.number) || one_of (normalize d.number) seen
    then rest
    else object d.number d.title d.url ∷ later

unfoldable pub enrich : List Entry → List Discovered → List Entry
enrich items [] = items
enrich items (d ∷ ds) = map (fill (d ∷ ds)) items ++ missing (seen_in items) (d ∷ ds)
