-- ===== src/Library/Tests.antt =====
-- A small library, and the theorems about it at that.
use shiori_server.Prelude.{
  ℕ, ◌+◌, ◌≢◌, ◌≡◌, refl, true, false, ◌&&◌, none, some, List, [], ◌∷◌, arith, ◌⊎◌, ◌==◌,
  if◌then◌else◌, All,
}
use shiori_server.Prelude.Rows.{any, has, row}
use shiori_server.Storage.Interface.{ok, Provider}
use shiori_server.Storage.Local.{Disk, local}
use shiori_server.Storage.Promises.{Laws-local}
use shiori_server.Library.Types.{
  MediaRequest, Media, ChapterImage, ChapterRequest, ChapterRow, Database, Call,
}
use shiori_server.Library.Media.{media_id, keys_of, delete_media, create_media}
use shiori_server.Library.Chapters.{images_of, to_chapter, upsert_chapter, get_chapter}
use shiori_server.Library.Integrity.Tables.{IsValid}
use shiori_server.Library.Runs.{
  media_made, chapter_put, media_deleted, changes, no_rows, IsValid-changes,
}
use shiori_server.Library.Deletion.{times, Withdrawn, delete_media_lem}
use shiori_server.Library.RoundTrip.{OfRequest, get_chapter-upsert_chapter}
use shiori_server.Library.Http.Media.{empty, problem, handle_delete_media}
use shiori_server.Library.Http.Removal.{among, handle_delete_media_lem}
use shiori_server.Library.Http.Features.{natural}
use shiori_server.Library.Http.Checks.{IsChecked}
use shiori_server.Library.Http.Requests.{
  Request, post_media, post_collection, put_history, serve_all, IsChecked-serve_all,
}

abbrev work : MediaRequest
work = record {
  source_url = "https://a.example/work";
  kind = "manga";
  title = "Work";
  alternative_titles = [];
  description = "";
  cover_url = "";
  authors = [];
  artists = [];
  status = "ongoing";
  genres = [];
}

abbrev one_media : Media
one_media = record { id = 7; content = work; created_at = 1; updated_at = 1 }

abbrev at : ℕ → ℕ → Call
at now ulid = record { now = now; ulid = ulid; fault = none; fault' = none }

abbrev image : ℕ → ChapterImage
image n = record { position = n; storage_key = b'k' ∷ n ∷ []; content_type = "image/png" }

abbrev chapter : ChapterRequest
chapter = record {
  media_id = 7;
  number = "1";
  title = "One";
  source_url = "https://a.example/1";
  video_url = "";
  images = image 1 ∷ image 2 ∷ [];
}

abbrev one_row : Database
one_row = record no_rows { media = one_media ∷ [] }

abbrev one_chapter : Database
one_chapter = record one_row {
  chapters =
      record {
        id = 9;
        media_id = 7;
        number = "1";
        title = "One";
        source_url = "https://a.example/1";
        video_url = "";
        created_at = 2;
      }
      ∷ [];
  images =
      record { chapter_id = 9; image = image 1 } ∷ record { chapter_id = 9; image = image 2 } ∷ [];
}

one_row-IsValid : IsValid one_row
one_row-IsValid = record {
  media_ids = (tt, tt);
  media_urls = (tt, tt);
  chapter_ids = tt;
  chapter_urls = tt;
  image_places = tt;
  collection_ids = tt;
  member_pairs = tt;
  history_ids = tt;
  chapters_refer = tt;
  images_refer = tt;
  history_refers = tt;
  members_refer = tt;
}

-- The calls that lead to the rows above, and the media deleted again.
made :
    changes ((at 1 7, media_made work) ∷ (at 2 9, chapter_put chapter) ∷ []) no_rows ≡ one_chapter
unfolding changes upsert_chapter create_media
made = refl

IsValid-changes_example : IsValid (
    changes
      ((at 1 7, media_made work) ∷ (at 2 9, chapter_put chapter) ∷ (at 3 8, media_deleted 7) ∷ [])
      no_rows)
IsValid-changes_example =
    IsValid-changes
      ((at 1 7, media_made work) ∷ (at 2 9, chapter_put chapter) ∷ (at 3 8, media_deleted 7) ∷ [])

delete_media_lem_example :
    (keys : List (List ℕ)) × ((delete_media (at 3 8) 7 one_chapter).0
      ≡ ok (keys, has media_id 7 one_chapter.media))
    × ((s : List ℕ)
        → times s (keys_of one_chapter.images)
          ≡ times s keys + times s (keys_of (delete_media (at 3 8) 7 one_chapter).1.images))
    × ((k : ℕ)
        → row media_id k (delete_media (at 3 8) 7 one_chapter).1.media
          ≡ (if k == 7 then none else row media_id k one_chapter.media))
    × All (λ r. r.media_id ≢ 7) (delete_media (at 3 8) 7 one_chapter).1.chapters
    × ((k : ℕ)
        → any (λ r. r.id == k && r.media_id == 7) one_chapter.chapters ≡ false
        → images_of k (delete_media (at 3 8) 7 one_chapter).1.images
          ≡ images_of k one_chapter.images)
delete_media_lem_example = delete_media_lem (at 3 8) 7 one_chapter refl refl

get_chapter-upsert_chapter_example :
    (r : ChapterRow) × ((upsert_chapter (at 2 9) chapter one_row).0
      ≡ ok (to_chapter chapter.images r))
    × (get_chapter (at 3 8) r.id (upsert_chapter (at 2 9) chapter one_row).1
        ≡ ok (some (to_chapter chapter.images r)))
    × OfRequest chapter r
get_chapter-upsert_chapter_example =
    get_chapter-upsert_chapter (at 2 9) (at 3 8) chapter one_row one_row-IsValid refl refl
      ((omega arith, tt), (tt, tt)) refl refl refl refl

-- A directory without files.
abbrev disk : Disk
disk = record {
  files = λ p. none;
  stopped = none;
  mkdir_fault = λ p. none;
  create_fault = λ p. none;
  open_fault = λ p. none;
  remove_fault = λ p. none;
  copy_fault = λ p. none;
}

abbrev files : Provider Disk
files = local (b'/' ∷ b'd' ∷ [])

handle_delete_media_lem_example :
    let r = handle_delete_media (some files) (at 3 8) 7 one_chapter disk in
    (keys : List (List ℕ)) × Withdrawn 7 one_chapter keys r.1
    × (((has media_id 7 one_chapter.media ≡ false) × (r.0 ≡ problem 404 "Not Found") × (r.2 ≡ disk))
        ⊎ ((has media_id 7 one_chapter.media ≡ true)
            × (((r.0 ≡ empty)
                  × ((j : List ℕ)
                      → files.content j r.2 ≡ (
                          if among files (Laws-local (b'/' ∷ b'd' ∷ [])) keys j
                          then none
                          else files.content j disk)))
                ⊎ ((r.0 ≡ problem 500 "Storage Error")
                    × ((j : List ℕ)
                        → among files (Laws-local (b'/' ∷ b'd' ∷ [])) keys j ≡ false
                        → files.content j r.2 ≡ files.content j disk)))))
handle_delete_media_lem_example =
    handle_delete_media_lem files (Laws-local (b'/' ∷ b'd' ∷ [])) (at 3 8) 7 one_chapter disk refl
      refl

abbrev requests : List (Call × Request)
requests =
    (at 1 7, post_media (some work))
    ∷ (at 2 5, post_collection (some (record { name = b'a' ∷ []; description = "" })))
    ∷ (
      at 3 6,
      put_history 9
          (some (record { position = natural 3; progress = natural 500000; completed = false })),
    )
    ∷ []

IsChecked-serve_all_example : IsChecked (serve_all requests no_rows)
IsChecked-serve_all_example =
    IsChecked-serve_all requests no_rows
      (record { media_filled = tt; collections_named = tt; progress_bounded = tt })
