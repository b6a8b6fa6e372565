-- ===== src/Import/ReadBack.antt =====
-- internal/jobs/chapter_import.go: an imported chapter as it is read.
use shiori_server.Prelude.{ℕ, ◌≡◌, refl, ap, ◌∙◌, String, true, false, none, some, List}
use shiori_server.Prelude.Rows.{has}
use shiori_server.Storage.Interface.{Provider, Result, ok, err}
use shiori_server.Library.Types.{Chapter, ChapterImage, ChapterRow, Database, Call}
use shiori_server.Library.Media.{media_id, chapter_id}
use shiori_server.Library.Chapters.{to_chapter, upsert_chapter, get_chapter}
use shiori_server.Library.RoundTrip.{OfRequest, get_chapter-upsert_chapter}
use shiori_server.Library.Integrity.Tables.{IsValid}
use shiori_server.Import.Units.{ExtractedUnit}
use shiori_server.Import.Images.{Asset, save_images, Numbered, save_images-Numbered, Rises-Numbered}
use shiori_server.Import.Recorded.{Recorded, save_images-Recorded}
use shiori_server.Import.Chapters.{shown, Warning, request_for, stored_unit, import_unit}

stored_unit_lem :
    {S : Type 0} (url : String) (ws : List Warning) (r : Result Chapter × Database) (s : S)
    → (stored_unit url ws r s).1 ≡ r.1
stored_unit_lem url ws (ok c, d) s = refl
stored_unit_lem url ws (err e, d) s = refl

stored_unit_storage :
    {S : Type 0} (url : String) (ws : List Warning) (r : Result Chapter × Database) (s : S)
    → (stored_unit url ws r s).2 ≡ s
stored_unit_storage url ws (ok c, d) s = refl
stored_unit_storage url ws (err e, d) s = refl

import_unit_storage :
    {S : Type 0} (p : Provider S) (media : ℕ) (folder : ExtractedUnit → List ℕ) (c : Call)
    (u : ExtractedUnit) (video : String) (sources : List (Result Asset)) (d : Database) (s : S)
    → (import_unit p false media folder c (shown video sources) u d s).2
      ≡ (save_images p (folder u) 0 sources s).1
unfolding import_unit
import_unit_storage p media folder c u video sources d s =
    let saved = save_images p (folder u) 0 sources s in
    stored_unit_storage u.url _ (upsert_chapter c (request_for media u "" saved.0.0) d) saved.1

-- A unit of a media that is not anime, whose page is read: in valid tables, where the media is there,
-- the id that is made is free and no statement fails, a chapter of the unit's number, title and URL
-- is stored, and reading its id gives it with images that are numbered from 1 without a gap. They
-- are, in order, those of the sources that were fetched, are images and whose bytes the storage took
-- under their keys, and no others, whatever the sources and the storage refuse; the storage is as
-- these calls leave it.
pub get_chapter-import_unit :
    {S : Type 0} (p : Provider S) (media : ℕ) (folder : ExtractedUnit → List ℕ) (c c' : Call)
    (u : ExtractedUnit) (video : String) (sources : List (Result Asset)) (d : Database) (s : S)
    → IsValid d
    → has media_id media d.media ≡ true
    → has chapter_id c.ulid d.chapters ≡ false
    → c.fault ≡ none
    → c.fault' ≡ none
    → c'.fault ≡ none
    → c'.fault' ≡ none
    → (images : List ChapterImage) × (r : ChapterRow) × (get_chapter c' r.id
          (import_unit p false media folder c (shown video sources) u d s).1
        ≡ ok (some (to_chapter images r)))
      × OfRequest (request_for media u "" images) r
      × Numbered p (folder u) 0 images
      × Recorded p
          (folder u)
          0
          sources
          s
          images
          (import_unit p false media folder c (shown video sources) u d s).2
unfolding import_unit
get_chapter-import_unit p media folder c c' u video sources d s v there free q q' r r' =
    let saved = save_images p (folder u) 0 sources s in
    let numbered = save_images-Numbered p (folder u) 0 sources s in
    let req = request_for media u "" saved.0.0 in
    let (row, answer, read, content) =
      get_chapter-upsert_chapter c c' req d v there free
        (Rises-Numbered p (folder u) 0 saved.0.0 numbered) q q' r r' in
    (
      saved.0.0,
      row,
      ap (λ x. get_chapter c' row.id x) (stored_unit_lem u.url _ (upsert_chapter c req d) saved.1)
          ∙ read,
      content,
      numbered,
      rw (import_unit_storage p media folder c u video sources d s)
          (save_images-Recorded p (folder u) 0 sources s),
    )
