-- ===== src/Library/Features.antt =====
-- internal/library/sqlite/features.go: pages of media, collections, the reading history, saved
-- downloads.
use shiori_server.Prelude.{
  ℕ, suc, ◌+◌, String, Bool, not, ◌&&◌, ◌||◌, Option, none, some, List, [], ◌∷◌, ◌++◌, ltb, ◌==◌,
  if◌then◌else◌, take,
}
use shiori_server.Prelude.Rows.{select, amend, any, order_by, has, row}
use shiori_server.Library.Types.{
  Media, Collection, ChapterRow, ImageRow, MemberRow, HistoryRow, HistoryEntry, Download, Database,
  Call, Result, ok, err, unless, query,
}
use shiori_server.Library.Media.{media_id, chapter_id, keys_of}
use shiori_server.Library.Page.{page_limit, below, cut_page, key_page}

-- A query that reads only.
abbrev pub reading : {A : Type 0} → Call → A → Result A
reading c a = query c.fault (ok a)

-- A statement that writes, with what it gives back.
abbrev pub writing : {A : Type 0} → Call → A → Database → Database → Result A × Database
writing c a d' d = unless c.fault d (ok a, d')

unfoldable pub list_media_page : Call → ℕ → Option ℕ → Database → Result (List Media × Option ℕ)
unfolding key_page
list_media_page c n cursor d = reading c (key_page media_id n cursor d.media)

abbrev pub collection_id : Collection → ℕ
collection_id c = c.id

abbrev newer : Collection → Collection → Bool
newer a b = ltb b.updated_at a.updated_at || (a.updated_at == b.updated_at && ltb b.id a.id)

unfoldable pub list_collections : Call → Database → Result (List Collection)
list_collections c d = reading c (order_by newer d.collections)

-- The two readings of the clock are one here.
unfoldable pub create_collection : Call → List ℕ → String → Database → Result Collection × Database
create_collection c name description d =
    let new : Collection = record {
      id = c.ulid;
      name = name;
      description = description;
      created_at = c.now;
      updated_at = c.now;
    } in
    if has collection_id c.ulid d.collections
    then (err "UNIQUE constraint failed: collections.id", d)
    else writing c new (record d { collections = d.collections ++ new ∷ [] }) d

unfoldable pub get_collection : Call → ℕ → Database → Result (Option Collection)
get_collection c i d = reading c (row collection_id i d.collections)

unfoldable pub update_collection :
    Call → ℕ → List ℕ → String → Database → Result (Option Collection) × Database
update_collection c i name description d =
    let d' = record d {
      collections =
          amend (λ x. x.id == i)
            (λ x. record x { name = name; description = description; updated_at = c.now })
            d.collections;
    } in
    unless c.fault d (
      if has collection_id i d.collections
      then unless c.fault' d' (ok (row collection_id i d'.collections), d')
      else (ok none, d))

-- ON DELETE CASCADE takes the members along.
unfoldable pub delete_collection : Call → ℕ → Database → Result (Unit {0}) × Database
delete_collection c i d =
    writing c tt
      (record d {
        collections = select (λ x. not (x.id == i)) d.collections;
        members = select (λ m. not (m.collection_id == i)) d.members;
      })
      d

abbrev pub is_member : ℕ → ℕ → MemberRow → Bool
is_member i j m = m.collection_id == i && m.media_id == j

-- ON CONFLICT(collection_id, media_id) DO NOTHING
unfoldable pub add_member : Call → ℕ → ℕ → Database → Result (Unit {0}) × Database
add_member c i j d =
    if not (has collection_id i d.collections && has media_id j d.media)
    then (err "FOREIGN KEY constraint failed", d)
    else if any (is_member i j) d.members
    then writing c tt d d
    else writing c tt
        (record d {
          members = d.members ++ record { collection_id = i; media_id = j; added_at = c.now } ∷ [];
        })
        d

unfoldable pub remove_member : Call → ℕ → ℕ → Database → Result (Unit {0}) × Database
remove_member c i j d =
    writing c tt (record d { members = select (λ m. not (is_member i j m)) d.members }) d

-- collection_media JOIN media: a member's media is there once.
abbrev pub members_of : ℕ → Database → List Media
members_of i d = select (λ m. any (is_member i m.id) d.members) d.media

unfoldable pub list_members : Call → ℕ → ℕ → Option ℕ → Database → Result (List Media × Option ℕ)
unfolding key_page
list_members c i n cursor d = reading c (key_page media_id n cursor (members_of i d))

abbrev entry_of : HistoryRow → ChapterRow → Media → HistoryEntry
entry_of h c m = record {
  chapter_id = h.chapter_id;
  media_id = c.media_id;
  title = m.content.title;
  number = c.number;
  position = h.position;
  progress = h.progress;
  completed = h.completed;
  updated_at = h.updated_at;
}

-- reading_history JOIN chapters JOIN media, for one row: the ids are unique.
abbrev pub entry : Database → HistoryRow → Option HistoryEntry
entry d h = elim (row chapter_id h.chapter_id d.chapters) [
  | none ↦ none
  | some c ↦ elim (row media_id c.media_id d.media) [ none ↦ none | some m ↦ some (entry_of h c m) ]
]

abbrev pub entries : Database → List HistoryRow → List HistoryEntry
entries d [] = []
entries d (h ∷ hs) = let rest = entries d hs in elim (entry d h) [ none ↦ rest | some e ↦ e ∷ rest ]

abbrev pub entry_key : HistoryEntry → ℕ
entry_key e = e.chapter_id

abbrev pub read_later : HistoryEntry → HistoryEntry → Bool
read_later a b =
    ltb b.updated_at a.updated_at || (a.updated_at == b.updated_at && ltb b.chapter_id a.chapter_id)

-- The order is by time and then by chapter, the cursor is a chapter alone, as in the source.
unfoldable pub history_page : ℕ → Option ℕ → List HistoryEntry → List HistoryEntry × Option ℕ
unfolding page_limit cut_page
history_page n cursor es =
    let limit = page_limit n in
    cut_page entry_key limit
      (take (limit + 1) (select (λ e. below cursor e.chapter_id) (order_by read_later es)))

unfoldable pub list_history : Call → ℕ → Option ℕ → Database → Result (List HistoryEntry × Option ℕ)
unfolding history_page
list_history c n cursor d = reading c (history_page n cursor (entries d d.history))

abbrev pub history_key : HistoryRow → ℕ
history_key h = h.chapter_id

-- INSERT … ON CONFLICT(chapter_id) DO UPDATE, and the joined row of the chapter.
unfoldable pub upsert_history : Call → ℕ → ℕ → ℕ → Bool → Database → Result HistoryEntry × Database
upsert_history c i position progress completed d =
    let new : HistoryRow = record {
      chapter_id = i;
      position = position;
      progress = progress;
      completed = completed;
      updated_at = c.now;
    } in
    let d' = record d {
      history =
          if has history_key i d.history
          then amend (λ h. h.chapter_id == i) (λ h. new) d.history
          else d.history ++ new ∷ [];
    } in
    if not (has chapter_id i d.chapters)
    then (err "FOREIGN KEY constraint failed", d)
    else unless c.fault d (
        unless c.fault' d'
          (elim (entry d' new) [ some e ↦ ok e | none ↦ err "sql: no rows in result set" ], d'))

unfoldable pub delete_history : Call → ℕ → Database → Result (Unit {0}) × Database
delete_history c i d =
    writing c tt (record d { history = select (λ h. not (h.chapter_id == i)) d.history }) d

-- COUNT(i.position) over the images of a chapter.
abbrev pub image_count : ℕ → List ImageRow → ℕ
image_count i [] = 0
image_count i (r ∷ rs) = if r.chapter_id == i then suc (image_count i rs) else image_count i rs

-- chapters JOIN media JOIN chapter_images … GROUP BY: a chapter without images has no group.
abbrev of_chapter : Database → ChapterRow → Media → Download
of_chapter d c m = record {
  chapter_id = c.id;
  media_id = c.media_id;
  title = m.content.title;
  number = c.number;
  image_count = image_count c.id d.images;
  created_at = c.created_at;
}

abbrev pub with_download : Database → ChapterRow → Option Media → List Download → List Download
with_download d c none rest = rest
with_download d c (some m) rest =
    if image_count c.id d.images == 0 then rest else of_chapter d c m ∷ rest

abbrev pub downloads : Database → List ChapterRow → List Download
downloads d [] = []
downloads d (c ∷ cs) = with_download d c (row media_id c.media_id d.media) (downloads d cs)

abbrev pub download_key : Download → ℕ
download_key x = x.chapter_id

unfoldable pub list_downloads : Call → ℕ → Option ℕ → Database → Result (List Download × Option ℕ)
unfolding key_page
list_downloads c n cursor d = reading c (key_page download_key n cursor (downloads d d.chapters))

-- Two statements without a transaction: the keys, then the deletion.
unfoldable pub delete_download : Call → ℕ → Database → Result (List (List ℕ)) × Database
delete_download c i d = unless c.fault d (
    unless c.fault' d (
      ok (keys_of (select (λ r. r.chapter_id == i) d.images)),
      record d { images = select (λ r. not (r.chapter_id == i)) d.images },
    ))
