-- ===== src/Library/Http/Media.antt =====
-- internal/library/http.go: media, chapters and the files that the reader asks for. A path parameter
-- is the id that it names; a body that does not decode is none.
use shiori_server.Prelude.{
  ℕ, String, Bool, true, false, ◌||◌, Option, none, some, List, [], ◌∷◌, ◌++◌, ltb, ◌==◌,
  if◌then◌else◌, str_eq,
}
use shiori_server.Library.Types.{
  MediaRequest, Media, ChapterImage, Chapter, Database, Call, Result, ok, err,
}
use shiori_server.Library.Media.{create_media, get_media, delete_media}
use shiori_server.Library.Chapters.{get_chapter, list_chapters}
use shiori_server.Library.Features.{list_media_page}
use shiori_server.Storage.Interface.{Provider}

-- What is written to the client: RespondJSON with a status, the same with the cursor of the next
-- page (none: no header), an empty 204, RespondError with status and title, http.NotFound.
pub data Reply (A : Type 0) : Type 0 where
  json : ℕ → A → Reply A
  page : A → Option ℕ → Reply A
  empty : Reply A
  problem : ℕ → String → Reply A
  plain_missing : Reply A

-- The limit of a query that does not parse is 0.
unfoldable pub parse_limit : ℕ → ℕ
parse_limit n = if ltb n 1 then 50 else if ltb 100 n then 100 else n

-- The next key, where the one before gave no error.
abbrev pub then_remove :
    {S : Type 0} → (S → Option String × S) → Option String × S → Option String × S
then_remove next (none, s) = next s
then_remove next (some e, s) = (some e, s)

-- `files` is none where the handler has no storage.
abbrev pub remove_files : {S : Type 0} → Option (Provider S) → List (List ℕ) → S → Option String × S
remove_files none keys s = (none, s)
remove_files (some p) [] s = (none, s)
remove_files (some p) (k ∷ ks) s = then_remove (λ t. remove_files (some p) ks t) (p.delete k s)

abbrev pub removed : {S : Type 0} → Option String × S → Database → Reply (Unit {0}) × Database × S
removed (none, s) d = (empty, d, s)
removed (some e, s) d = (problem 500 "Storage Error", d, s)

abbrev pub media_deleted :
    {S : Type 0}
    → Option (Provider S)
    → Result (List (List ℕ) × Bool) × Database
    → S
    → Reply (Unit {0}) × Database × S
media_deleted files (err e, d) s = (problem 500 "Database Error", d, s)
media_deleted files (ok (keys, false), d) s = (problem 404 "Not Found", d, s)
media_deleted files (ok (keys, true), d) s = removed (remove_files files keys s) d

unfoldable pub handle_delete_media :
    {S : Type 0} → Option (Provider S) → Call → ℕ → Database → S → Reply (Unit {0}) × Database × S
handle_delete_media files c i d s = media_deleted files (delete_media c i d) s

-- "/api/v1/reader/assets/"
abbrev pub asset_path : List ℕ
asset_path =
    b'/' ∷ b'a' ∷ b'p' ∷ b'i' ∷ b'/' ∷ b'v' ∷ b'1' ∷ b'/' ∷ b'r' ∷ b'e' ∷ b'a' ∷ b'd' ∷ b'e' ∷ b'r'
    ∷ b'/' ∷ b'a' ∷ b's' ∷ b's' ∷ b'e' ∷ b't' ∷ b's' ∷ b'/' ∷ []

-- exposeImageURLs: each image with its URL.
abbrev pub image_urls : List ChapterImage → List (ChapterImage × List ℕ)
image_urls [] = []
image_urls (x ∷ xs) = (x, asset_path ++ x.storage_key) ∷ image_urls xs

abbrev pub expose : Chapter → Chapter × List (ChapterImage × List ℕ)
expose c = (c, image_urls c.images)

abbrev pub expose_all : List Chapter → List (Chapter × List (ChapterImage × List ℕ))
expose_all [] = []
expose_all (c ∷ cs) = expose c ∷ expose_all cs

unfoldable pub handle_list_chapters :
    Call → ℕ → Database → Reply (List (Chapter × List (ChapterImage × List ℕ)))
handle_list_chapters c i d = elim (list_chapters c i d) [
  | err e ↦ problem 500 "Database Error"
  | ok items ↦ json 200 (expose_all items)
]

-- The answer for one row that may not be there.
abbrev pub one : {A : Type 0} → Result (Option A) → Reply A
one (err e) = problem 500 "Database Error"
one (ok none) = problem 404 "Not Found"
one (ok (some a)) = json 200 a

abbrev pub exposed : Reply Chapter → Reply (Chapter × List (ChapterImage × List ℕ))
exposed (json n c) = json n (expose c)
exposed (page c k) = page (expose c) k
exposed empty = empty
exposed (problem n t) = problem n t
exposed plain_missing = plain_missing

unfoldable pub handle_get_chapter :
    Call → ℕ → Database → Reply (Chapter × List (ChapterImage × List ℕ))
handle_get_chapter c i d = exposed (one (get_chapter c i d))

-- strings.TrimPrefix(key, "/")
abbrev pub without_slash : List ℕ → List ℕ
without_slash [] = []
without_slash (b ∷ bs) = if b == b'/' then bs else b ∷ bs

abbrev pub asset_read : Result (Option (List ℕ)) → Reply (List ℕ)
asset_read (err e) = problem 500 "Storage Error"
asset_read (ok none) = plain_missing
asset_read (ok (some v)) = json 200 v

abbrev pub is_blank_key : List ℕ → Bool
is_blank_key [] = true
is_blank_key (b ∷ bs) = false

-- The headers for the type and for caching are not modelled.
unfoldable pub handle_get_asset : {S : Type 0} → Provider S → List ℕ → S → Reply (List ℕ)
handle_get_asset p path s =
    let key = without_slash path in
    if is_blank_key key then plain_missing else asset_read (p.get key s)

abbrev pub paged : {A : Type 0} → Result (List A × Option ℕ) → Reply (List A)
paged (err e) = problem 500 "Database Error"
paged (ok (items, next)) = page items next

-- The SQLite repository is a MediaPageRepository.
unfoldable pub handle_list_media : Call → ℕ → Option ℕ → Database → Reply (List Media)
unfolding parse_limit
handle_list_media c n cursor d = paged (list_media_page c (parse_limit n) cursor d)

abbrev pub media_made : Result Media × Database → Reply Media × Database
media_made (err e, d) = (problem 500 "Database Error", d)
media_made (ok m, d) = (json 201 m, d)

unfoldable pub handle_create_media : Call → Option MediaRequest → Database → Reply Media × Database
handle_create_media c none d = (problem 400 "Invalid Request", d)
handle_create_media c (some req) d =
    if str_eq req.title "" || str_eq req.kind "" || str_eq req.status ""
    then (problem 400 "Validation Error", d)
    else media_made (create_media c req d)

unfoldable pub handle_get_media : Call → ℕ → Database → Reply Media
handle_get_media c i d = one (get_media c i d)
