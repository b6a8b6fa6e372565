-- ===== src/Library/Runs.antt =====
-- internal/library/sqlite: any sequence of the repository's writing calls.
use shiori_server.Prelude.{ℕ, String, Bool, List, [], ◌∷◌}
use shiori_server.Library.Types.{MediaRequest, ChapterRequest, Database, Call}
use shiori_server.Library.Media.{create_media, delete_media}
use shiori_server.Library.Chapters.{upsert_chapter}
use shiori_server.Library.Features.{
  create_collection, update_collection, delete_collection, add_member, remove_member,
  upsert_history, delete_history, delete_download,
}
use shiori_server.Library.Integrity.Tables.{IsValid, IsValid-drop_media}
use shiori_server.Library.Integrity.Changes.{unless-IsValid, IsValid-create_media}
use shiori_server.Library.Integrity.Chapters.{IsValid-upsert_chapter}
use shiori_server.Library.Integrity.Features.{
  IsValid-create_collection, IsValid-update_collection, IsValid-delete_collection,
  IsValid-add_member, IsValid-remove_member, IsValid-upsert_history, IsValid-delete_history,
  IsValid-delete_download,
}

-- The calls that write.
pub data Change : Type 0 where
  media_made : MediaRequest → Change
  media_deleted : ℕ → Change
  chapter_put : ChapterRequest → Change
  collection_made : List ℕ → String → Change
  collection_updated : ℕ → List ℕ → String → Change
  collection_deleted : ℕ → Change
  member_added : ℕ → ℕ → Change
  member_removed : ℕ → ℕ → Change
  progress_put : ℕ → ℕ → ℕ → Bool → Change
  progress_deleted : ℕ → Change
  download_deleted : ℕ → Change

unfoldable pub change : Call → Change → Database → Database
change c (media_made req) d = (create_media c req d).1
change c (media_deleted i) d = (delete_media c i d).1
change c (chapter_put req) d = (upsert_chapter c req d).1
change c (collection_made name text) d = (create_collection c name text d).1
change c (collection_updated i name text) d = (update_collection c i name text d).1
change c (collection_deleted i) d = (delete_collection c i d).1
change c (member_added i j) d = (add_member c i j d).1
change c (member_removed i j) d = (remove_member c i j d).1
change c (progress_put i position progress completed) d =
    (upsert_history c i position progress completed d).1
change c (progress_deleted i) d = (delete_history c i d).1
change c (download_deleted i) d = (delete_download c i d).1

IsValid-delete_media :
    (c : Call) (i : ℕ) (d : Database) → IsValid d → IsValid (delete_media c i d).1
unfolding delete_media
IsValid-delete_media c i d v =
    unless-IsValid c.fault d _ v (unless-IsValid c.fault' d _ v (IsValid-drop_media d v i))

IsValid-change : (c : Call) (x : Change) (d : Database) → IsValid d → IsValid (change c x d)
unfolding change
IsValid-change c (media_made req) d v = IsValid-create_media d v c req
IsValid-change c (media_deleted i) d v = IsValid-delete_media c i d v
IsValid-change c (chapter_put req) d v = IsValid-upsert_chapter d v c req
IsValid-change c (collection_made name text) d v = IsValid-create_collection d v c name text
IsValid-change c (collection_updated i name text) d v = IsValid-update_collection d v c i name text
IsValid-change c (collection_deleted i) d v = IsValid-delete_collection d v c i
IsValid-change c (member_added i j) d v = IsValid-add_member d v c i j
IsValid-change c (member_removed i j) d v = IsValid-remove_member d v c i j
IsValid-change c (progress_put i position progress completed) d v =
    IsValid-upsert_history d v c i position progress completed
IsValid-change c (progress_deleted i) d v = IsValid-delete_history d v c i
IsValid-change c (download_deleted i) d v = IsValid-delete_download d v c i

abbrev pub no_rows : Database
no_rows = record {
  media = [];
  chapters = [];
  images = [];
  collections = [];
  members = [];
  history = [];
}

unfoldable pub changes : List (Call × Change) → Database → Database
unfolding change
changes [] d = d
changes ((c, x) ∷ xs) d = changes xs (change c x d)

changes-IsValid : (xs : List (Call × Change)) (d : Database) → IsValid d → IsValid (changes xs d)
unfolding changes
changes-IsValid [] d v = v
changes-IsValid ((c, x) ∷ xs) d v = changes-IsValid xs (change c x d) (IsValid-change c x d v)

-- From empty tables, whatever calls that write are made, with whatever ids, times and errors of the
-- driver: the ids, the source URLs of media, the URLs of a media's chapters, the positions of a
-- chapter's images, the members of collections and the chapters of the history are distinct, and
-- each chapter refers to a media that is there, each image and each history entry to a chapter that
-- is there, each member to a collection and a media that are there.
pub IsValid-changes : (xs : List (Call × Change)) → IsValid (changes xs no_rows)
IsValid-changes xs = changes-IsValid xs no_rows (record {
  media_ids = tt;
  media_urls = tt;
  chapter_ids = tt;
  chapter_urls = tt;
  image_places = tt;
  collection_ids = tt;
  member_pairs = tt;
  history_ids = tt;
  chapters_refer = tt;
  images_refer = tt;
  history_refers = tt;
  members_refer = tt;
})
