-- ===== src/Library/Media.antt =====
-- internal/library/sqlite/repository.go: Create, GetByID, List and Delete.
use shiori_server.Prelude.{
  ℕ, String, Bool, not, ◌&&◌, Option, none, some, List, [], ◌∷◌, ◌++◌, ltb, ◌==◌, if◌then◌else◌,
  take, str_eq,
}
use shiori_server.Prelude.Rows.{select, amend, any, first, order_by, has, row}
use shiori_server.Library.Types.{
  MediaRequest, Media, ChapterRow, ImageRow, Database, Call, Result, ok, err, unless, query,
}

abbrev pub media_id : Media → ℕ
media_id m = m.id

abbrev pub chapter_id : ChapterRow → ℕ
chapter_id c = c.id

abbrev pub has_url : String → Media → Bool
has_url u m = str_eq m.content.source_url u

-- ON CONFLICT(source_url) DO UPDATE
abbrev pub overwritten : Call → MediaRequest → Media → Media
overwritten c req m = record m { content = req; updated_at = c.now }

abbrev pub new_media : Call → MediaRequest → Media
new_media c req = record { id = c.ulid; content = req; created_at = c.now; updated_at = c.now }

-- INSERT INTO media … ON CONFLICT … RETURNING
unfoldable pub create_media : Call → MediaRequest → Database → Result Media × Database
create_media c req d = unless c.fault d (elim (first (has_url req.source_url) d.media) [
  | some m ↦ (
    ok (overwritten c req m),
    record d { media = amend (has_url req.source_url) (overwritten c req) d.media },
  )
  | none ↦
      if has media_id c.ulid d.media
      then (err "UNIQUE constraint failed: media.id", d)
      else (ok (new_media c req), record d { media = d.media ++ new_media c req ∷ [] })
])

-- No row is no error here: a nil pointer.
unfoldable pub get_media : Call → ℕ → Database → Result (Option Media)
get_media c i d = query c.fault (ok (row media_id i d.media))

abbrev later_made : Media → Media → Bool
later_made a b = ltb b.created_at a.created_at

unfoldable pub list_media : Call → Database → Result (List Media)
list_media c d = query c.fault (ok (take 50 (order_by later_made d.media)))

-- DELETE FROM chapters WHERE test, with the rows that ON DELETE CASCADE takes along.
abbrev pub gone : (ChapterRow → Bool) → List ChapterRow → ℕ → Bool
gone test chapters i = any (λ c. c.id == i && test c) chapters

unfoldable pub drop_chapters : (ChapterRow → Bool) → Database → Database
drop_chapters test d = record d {
  chapters = select (λ c. not (test c)) d.chapters;
  images = select (λ i. not (gone test d.chapters i.chapter_id)) d.images;
  history = select (λ h. not (gone test d.chapters h.chapter_id)) d.history;
}

abbrev pub of_media : ℕ → ChapterRow → Bool
of_media i c = c.media_id == i

-- DELETE FROM media WHERE id = ?
unfoldable pub drop_media : ℕ → Database → Database
unfolding drop_chapters
drop_media i d =
    let d' = drop_chapters (of_media i) d in
    record d' {
      media = select (λ m. not (m.id == i)) d'.media;
      members = select (λ m. not (m.media_id == i)) d'.members;
    }

abbrev pub keys_of : List ImageRow → List (List ℕ)
keys_of [] = []
keys_of (i ∷ rows) = i.image.storage_key ∷ keys_of rows

-- SELECT i.storage_key FROM chapter_images i JOIN chapters c …: a chapter's id is unique, so that an
-- image joins one chapter at most.
unfoldable pub storage_keys : ℕ → Database → List (List ℕ)
storage_keys i d = keys_of (select (λ x. gone (of_media i) d.chapters x.chapter_id) d.images)

-- The transaction: a later fault undoes it.
unfoldable pub delete_media : Call → ℕ → Database → Result (List (List ℕ) × Bool) × Database
unfolding drop_media storage_keys
delete_media c i d =
    unless c.fault d
      (unless c.fault' d (ok (storage_keys i d, has media_id i d.media), drop_media i d))
