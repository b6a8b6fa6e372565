-- ===== src/Library/Chapters.antt =====
-- internal/library/sqlite/repository.go: UpsertChapter, ListChapters and GetChapter.
use shiori_server.Prelude.{
  ℕ, Bool, true, false, not, ◌&&◌, ◌||◌, Option, none, some, List, [], ◌∷◌, ◌++◌, ltb, ◌==◌,
  if◌then◌else◌, str_eq,
}
use shiori_server.Prelude.Rows.{select, amend, first, order_by, has, row}
use shiori_server.Library.Types.{
  ChapterImage, ChapterRequest, Chapter, ChapterRow, ImageRow, Database, Call, Result, ok, err,
  unless, query,
}
use shiori_server.Library.Media.{media_id, chapter_id}

abbrev pub same_chapter : ChapterRequest → ChapterRow → Bool
same_chapter req c = c.media_id == req.media_id && str_eq c.source_url req.source_url

-- DO UPDATE SET number, title, video_url
abbrev pub renewed : ChapterRequest → ChapterRow → ChapterRow
renewed req c = record c { number = req.number; title = req.title; video_url = req.video_url }

abbrev pub new_chapter : Call → ChapterRequest → ChapterRow
new_chapter c req = record {
  id = c.ulid;
  media_id = req.media_id;
  number = req.number;
  title = req.title;
  source_url = req.source_url;
  video_url = req.video_url;
  created_at = c.now;
}

-- Whether two images of a request have one position, against PRIMARY KEY(chapter_id, position).
abbrev pub has_position : ℕ → List ChapterImage → Bool
has_position p [] = false
has_position p (i ∷ is) = i.position == p || has_position p is

unfoldable pub repeats : List ChapterImage → Bool
repeats [] = false
repeats (i ∷ is) = has_position i.position is || repeats is

abbrev pub image_rows : ℕ → List ChapterImage → List ImageRow
image_rows i [] = []
image_rows i (x ∷ xs) = record { chapter_id = i; image = x } ∷ image_rows i xs

-- DELETE FROM chapter_images and one INSERT for each image.
abbrev pub with_images : ℕ → List ChapterImage → List ImageRow → List ImageRow
with_images i images rows = select (λ r. not (r.chapter_id == i)) rows ++ image_rows i images

abbrev pub to_chapter : List ChapterImage → ChapterRow → Chapter
to_chapter images c = record {
  id = c.id;
  media_id = c.media_id;
  number = c.number;
  title = c.title;
  source_url = c.source_url;
  video_url = c.video_url;
  images = images;
  created_at = c.created_at;
}

-- The chapter that the INSERT leaves, and the table with it; an error where the media is not there
-- or the new id is taken.
unfoldable pub put_chapter : Call → ChapterRequest → Database → Result ChapterRow × Database
put_chapter c req d =
    if not (has media_id req.media_id d.media)
    then (err "FOREIGN KEY constraint failed", d)
    else elim (first (same_chapter req) d.chapters) [
      | some r ↦ (
        ok (renewed req r),
        record d { chapters = amend (same_chapter req) (renewed req) d.chapters },
      )
      | none ↦
          if has chapter_id c.ulid d.chapters
          then (err "UNIQUE constraint failed: chapters.id", d)
          else (
            ok (new_chapter c req),
            record d { chapters = d.chapters ++ new_chapter c req ∷ [] },
          )
    ]

-- DELETE FROM chapter_images and one INSERT for each image.
unfoldable pub put_images : ℕ → List ChapterImage → Database → Database
put_images i images d = record d { images = with_images i images d.images }

-- The statements after the first; `d` is the database that a failure goes back to.
abbrev pub then_images :
    Call → ChapterRequest → Database → Result ChapterRow × Database → Result Chapter × Database
then_images c req d (err e, d') = (err e, d)
then_images c req d (ok r, d') =
    if repeats req.images
    then (err "UNIQUE constraint failed: chapter_images.chapter_id, position", d)
    else unless c.fault' d (ok (to_chapter req.images r), put_images r.id req.images d')

-- The transaction: whatever fails, the database is as before.
unfoldable pub upsert_chapter : Call → ChapterRequest → Database → Result Chapter × Database
unfolding put_chapter repeats put_images
upsert_chapter c req d = unless c.fault d (then_images c req d (put_chapter c req d))

abbrev pub by_position : ChapterImage → ChapterImage → Bool
by_position a b = ltb a.position b.position

abbrev pub images_of : ℕ → List ImageRow → List ChapterImage
images_of i [] = []
images_of i (r ∷ rs) =
    let rest = images_of i rs in if r.chapter_id == i then r.image ∷ rest else rest

unfoldable pub list_images : ℕ → Database → List ChapterImage
list_images i d = order_by by_position (images_of i d.images)

unfoldable pub get_chapter : Call → ℕ → Database → Result (Option Chapter)
unfolding list_images
get_chapter c i d = query c.fault (elim (row chapter_id i d.chapters) [
  | none ↦ ok none
  | some r ↦ query c.fault' (ok (some (to_chapter (list_images i d) r)))
])

abbrev earlier : ChapterRow → ChapterRow → Bool
earlier a b = ltb a.created_at b.created_at || (a.created_at == b.created_at && ltb a.id b.id)

abbrev pub with_their_images : Database → List ChapterRow → List Chapter
with_their_images d [] = []
with_their_images d (r ∷ rs) = to_chapter (list_images r.id d) r ∷ with_their_images d rs

abbrev is_empty : List ChapterRow → Bool
is_empty [] = true
is_empty (r ∷ rs) = false

-- The images of each chapter are one more query; `fault'` is the first of these that fails.
unfoldable pub list_chapters : Call → ℕ → Database → Result (List Chapter)
unfolding list_images
list_chapters c i d =
    let rows = order_by earlier (select (λ r. r.media_id == i) d.chapters) in
    query c.fault (if is_empty rows then ok [] else query c.fault' (ok (with_their_images d rows)))
