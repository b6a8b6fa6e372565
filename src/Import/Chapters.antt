-- ===== src/Import/Chapters.antt =====
-- internal/jobs/chapter_import.go: importExtractedUnits over the library's repository and the file
-- storage. The messages of progress are left out. What the browser shows of a unit is given, with what
-- findVideoURL and findImageSources find in the page.
use shiori_server.Prelude.{
  ℕ, String, Bool, true, false, Option, none, some, List, [], ◌∷◌, ◌++◌, if◌then◌else◌, str_eq,
}
use shiori_server.Storage.Interface.{Provider, Result, ok, err}
use shiori_server.Library.Types.{ChapterImage, ChapterRequest, Chapter, Database, Call}
use shiori_server.Library.Chapters.{upsert_chapter}
use shiori_server.Import.Units.{ExtractedUnit}
use shiori_server.Import.Images.{Asset, save_images}

-- Navigate or Snapshot fails, or the page is read: its video URL and its images' sources.
pub data Page : Type 0 where
  unreachable : String → Page
  shown : String → List (Result Asset) → Page

-- What a warning says after the URL.
pub data Reason : Type 0 where
  failed : String → Reason
  no_video no_images : Reason

abbrev pub Warning : Type 0
Warning = String × Reason

abbrev pub with_error : String → Option String → List Warning
with_error url none = []
with_error url (some e) = (url, failed e) ∷ []

abbrev pub is_empty_list : List ChapterImage → Bool
is_empty_list [] = true
is_empty_list (x ∷ xs) = false

abbrev pub request_for : ℕ → ExtractedUnit → String → List ChapterImage → ChapterRequest
request_for media u video images = record {
  media_id = media;
  number = u.number;
  title = u.title;
  source_url = u.url;
  video_url = video;
  images = images;
}

abbrev pub stored_unit :
    {S : Type 0}
    → String
    → List Warning
    → Result Chapter × Database
    → S
    → List Warning × Database × S
stored_unit url ws (ok c, d) s = (ws, d, s)
stored_unit url ws (err e, d) s = (ws ++ (url, failed e) ∷ [], d, s)

module _ {S : Type 0} (p : Provider S) (anime : Bool) (media : ℕ)
    (folder : ExtractedUnit → List ℕ) where
  abbrev pub with_saved :
      Call
      → ExtractedUnit
      → (List ChapterImage × Option String) × S
      → Database
      → List Warning × Database × S
  with_saved c u ((images, last), s) d =
      stored_unit u.url
        (with_error u.url last ++ (if is_empty_list images then (u.url, no_images) ∷ [] else []))
        (upsert_chapter c (request_for media u "" images) d) s

  unfoldable pub import_unit :
      Call → Page → ExtractedUnit → Database → S → List Warning × Database × S
  unfolding save_images
  import_unit c (unreachable e) u d s = ((u.url, failed e) ∷ [], d, s)
  import_unit c (shown video sources) u d s =
      if anime
      then stored_unit u.url (if str_eq video "" then (u.url, no_video) ∷ [] else [])
          (upsert_chapter c (request_for media u video []) d) s
      else with_saved c u (save_images p (folder u) 0 sources s) d

  abbrev pub and_warnings : List Warning → List Warning × Database × S → List Warning × Database × S
  and_warnings ws (vs, d, s) = (ws ++ vs, d, s)

  -- `calls` and `pages` give the call of the repository and the page for each unit's URL.
  unfoldable pub import_units :
      (String → Call)
      → (String → Page)
      → List ExtractedUnit
      → Database
      → S
      → List Warning × Database × S
  unfolding import_unit
  import_units calls pages [] d s = ([], d, s)
  import_units calls pages (u ∷ us) d s =
      let r = import_unit (calls u.url) (pages u.url) u d s in
      and_warnings r.0 (import_units calls pages us r.1 r.2)
