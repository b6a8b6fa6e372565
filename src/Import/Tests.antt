-- ===== src/Import/Tests.antt =====
-- Two units, and the theorems about their import.
use shiori_server.Prelude.{ℕ, ◌≡◌, refl, String, true, false, none, some, List, [], ◌∷◌}
use shiori_server.Storage.Interface.{Provider, Result, ok, err}
use shiori_server.Storage.Local.{Disk, local}
use shiori_server.Library.Types.{MediaRequest, ChapterImage, ChapterRow, Database, Call}
use shiori_server.Library.Chapters.{to_chapter, get_chapter}
use shiori_server.Library.RoundTrip.{OfRequest}
use shiori_server.Library.Runs.{no_rows}
use shiori_server.Library.Integrity.Tables.{IsValid}
use shiori_server.Import.Units.{ExtractedUnit}
use shiori_server.Import.Images.{Asset, Numbered, four_digits}
use shiori_server.Import.Recorded.{Recorded}
use shiori_server.Import.Chapters.{Page, shown, request_for, import_unit, import_units}
use shiori_server.Import.Kept.{Covered, Stored, Covered-import_units}
use shiori_server.Import.ReadBack.{get_chapter-import_unit}

abbrev disk : Disk
disk = record {
  files = λ p. none;
  stopped = none;
  mkdir_fault = λ p. none;
  create_fault = λ p. none;
  open_fault = λ p. none;
  remove_fault = λ p. none;
  copy_fault = λ p. none;
}

abbrev files : Provider Disk
files = local (b'/' ∷ b'd' ∷ [])

abbrev folder : ExtractedUnit → List ℕ
folder u = b'm' ∷ b'/' ∷ []

abbrev unit : String → ExtractedUnit
unit url = record { number = "1"; title = ""; url = url }

abbrev call : Call
call = record { now = 2; ulid = 9; fault = none; fault' = none }

abbrev work : MediaRequest
work = record {
  source_url = "https://a.example/work";
  kind = "manga";
  title = "Work";
  alternative_titles = [];
  description = "";
  cover_url = "";
  authors = [];
  artists = [];
  status = "ongoing";
  genres = [];
}

abbrev one_row : Database
one_row = record no_rows {
  media = record { id = 7; content = work; created_at = 1; updated_at = 1 } ∷ [];
}

one_row-IsValid : IsValid one_row
one_row-IsValid = record {
  media_ids = (tt, tt);
  media_urls = (tt, tt);
  chapter_ids = tt;
  chapter_urls = tt;
  image_places = tt;
  collection_ids = tt;
  member_pairs = tt;
  history_ids = tt;
  chapters_refer = tt;
  images_refer = tt;
  history_refers = tt;
  members_refer = tt;
}

abbrev png : Asset
png = record {
  content = 1 ∷ [];
  content_type = "image/png";
  is_image = true;
  extension = b'.' ∷ b'p' ∷ [];
}

-- The second source gives nothing.
abbrev sources : List (Result Asset)
sources = ok png ∷ err "gone" ∷ ok png ∷ []

numbers : four_digits 12 ≡ b'0' ∷ b'0' ∷ b'1' ∷ b'2' ∷ []
unfolding four_digits
numbers = refl

abbrev pages : String → Page
pages url = shown "" sources

Covered-import_units_example :
    let q =
      import_units files false 7 folder
        (λ url. call)
        pages
        (unit "https://a.example/1" ∷ unit "https://a.example/2" ∷ [])
        one_row
        disk in
    Covered files false 7 folder (unit "https://a.example/1" ∷ unit "https://a.example/2" ∷ []) q
    × ((m : ℕ) (x : String) → Stored m x one_row → Stored m x q.1)
Covered-import_units_example =
    Covered-import_units files false 7 folder (λ url. call) pages
      (unit "https://a.example/1" ∷ unit "https://a.example/2" ∷ []) one_row disk

get_chapter-import_unit_example :
    (images : List ChapterImage) × (r : ChapterRow) × (get_chapter call r.id
        (import_unit files false 7 folder call
          (shown "" sources)
          (unit "https://a.example/1")
          one_row
          disk).1
      ≡ ok (some (to_chapter images r)))
    × OfRequest (request_for 7 (unit "https://a.example/1") "" images) r
    × Numbered files (folder (unit "https://a.example/1")) 0 images
    × Recorded files
        (folder (unit "https://a.example/1"))
        0
        sources
        disk
        images
        (import_unit files false 7 folder call
          (shown "" sources)
          (unit "https://a.example/1")
          one_row
          disk).2
get_chapter-import_unit_example =
    get_chapter-import_unit files 7 folder call call (unit "https://a.example/1") "" sources one_row
      disk one_row-IsValid refl refl refl refl refl refl
