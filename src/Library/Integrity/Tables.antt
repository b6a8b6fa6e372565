-- ===== src/Library/Integrity/Tables.antt =====
-- The tables of internal/library/sqlite: their keys and references, and the change of one table.
use shiori_server.Prelude.{ℕ, ◌≡◌, String, Bool, true, not, ◌&&◌, List, arith, ◌==◌, str_eq, All}
use shiori_server.Prelude.Rows.{select, has, Keyed}
use shiori_server.Prelude.Tables.{
  select-both, All-map, Keyed-select, has-other, has-kept, Unique, Unique-select,
}
use shiori_server.Library.Types.{
  Media, Collection, ChapterRow, ImageRow, MemberRow, HistoryRow, Database,
}
use shiori_server.Library.Media.{media_id, chapter_id, gone, drop_chapters, drop_media, of_media}
use shiori_server.Library.Features.{collection_id, history_key}

abbrev pub url : Media → String
url m = m.content.source_url

abbrev pub chapter_url : ChapterRow → ℕ × String
chapter_url c = (c.media_id, c.source_url)

abbrev pub place_of : ImageRow → ℕ × ℕ
place_of r = (r.chapter_id, r.image.position)

abbrev pub member_of : MemberRow → ℕ × ℕ
member_of m = (m.collection_id, m.media_id)

abbrev pub same_url : String → String → Bool
same_url a b = str_eq a b

abbrev pub same_chapter_url : ℕ × String → ℕ × String → Bool
same_chapter_url a b = a.0 == b.0 && str_eq a.1 b.1

abbrev pub same_pair : ℕ × ℕ → ℕ × ℕ → Bool
same_pair a b = a.0 == b.0 && a.1 == b.1

-- A reference to a row that is there.
abbrev pub Refers : {A : Type 0} → (A → ℕ) → List A → ℕ → Type 0
Refers key rows k = has key k rows ≡ true

-- What the tables' declarations ask: primary keys, unique columns and references.
pub record IsValid (d : Database) : Type 0 where
  pub media_ids : Keyed media_id d.media
  pub media_urls : Unique url same_url d.media
  pub chapter_ids : Keyed chapter_id d.chapters
  pub chapter_urls : Unique chapter_url same_chapter_url d.chapters
  pub image_places : Unique place_of same_pair d.images
  pub collection_ids : Keyed collection_id d.collections
  pub member_pairs : Unique member_of same_pair d.members
  pub history_ids : Keyed history_key d.history
  pub chapters_refer : All (λ c. Refers media_id d.media c.media_id) d.chapters
  pub images_refer : All (λ i. Refers chapter_id d.chapters i.chapter_id) d.images
  pub history_refers : All (λ h. Refers chapter_id d.chapters h.chapter_id) d.history
  pub members_refer :
      All
        (λ m.
          Refers collection_id d.collections m.collection_id × Refers media_id d.media m.media_id)
        d.members

module _ (d : Database) (v : IsValid d) where
  pub media_changed :
      (rows : List Media)
      → Keyed media_id rows
      → Unique url same_url rows
      → ((k : ℕ) → Refers media_id d.media k → Refers media_id rows k)
      → IsValid (record d { media = rows })
  media_changed rows ids urls grown = record {
    media_ids = ids;
    media_urls = urls;
    chapters_refer =
        All-map (λ c. Refers media_id d.media c.media_id) (λ c. Refers media_id rows c.media_id)
          d.chapters (λ c r. grown c.media_id r) v.chapters_refer;
    members_refer =
        All-map
          (λ m.
            Refers collection_id d.collections m.collection_id × Refers media_id d.media m.media_id)
          (λ m.
            Refers collection_id d.collections m.collection_id × Refers media_id rows m.media_id)
          d.members (λ m r. (r.0, grown m.media_id r.1)) v.members_refer;
    chapter_ids = v.chapter_ids;
    chapter_urls = v.chapter_urls;
    image_places = v.image_places;
    collection_ids = v.collection_ids;
    member_pairs = v.member_pairs;
    history_ids = v.history_ids;
    images_refer = v.images_refer;
    history_refers = v.history_refers;
  }

  pub chapters_changed :
      (rows : List ChapterRow)
      → Keyed chapter_id rows
      → Unique chapter_url same_chapter_url rows
      → All (λ c. Refers media_id d.media c.media_id) rows
      → ((k : ℕ) → Refers chapter_id d.chapters k → Refers chapter_id rows k)
      → IsValid (record d { chapters = rows })
  chapters_changed rows ids urls refer grown = record {
    chapter_ids = ids;
    chapter_urls = urls;
    chapters_refer = refer;
    images_refer =
        All-map (λ i. Refers chapter_id d.chapters i.chapter_id)
          (λ i. Refers chapter_id rows i.chapter_id) d.images (λ i r. grown i.chapter_id r)
          v.images_refer;
    history_refers =
        All-map (λ h. Refers chapter_id d.chapters h.chapter_id)
          (λ h. Refers chapter_id rows h.chapter_id) d.history (λ h r. grown h.chapter_id r)
          v.history_refers;
    media_ids = v.media_ids;
    media_urls = v.media_urls;
    image_places = v.image_places;
    collection_ids = v.collection_ids;
    member_pairs = v.member_pairs;
    history_ids = v.history_ids;
    members_refer = v.members_refer;
  }

  pub collections_changed :
      (rows : List Collection)
      → Keyed collection_id rows
      → ((k : ℕ) → Refers collection_id d.collections k → Refers collection_id rows k)
      → IsValid (record d { collections = rows })
  collections_changed rows ids grown = record {
    collection_ids = ids;
    members_refer =
        All-map
          (λ m.
            Refers collection_id d.collections m.collection_id × Refers media_id d.media m.media_id)
          (λ m. Refers collection_id rows m.collection_id × Refers media_id d.media m.media_id)
          d.members (λ m r. (grown m.collection_id r.0, r.1)) v.members_refer;
    media_ids = v.media_ids;
    media_urls = v.media_urls;
    chapter_ids = v.chapter_ids;
    chapter_urls = v.chapter_urls;
    image_places = v.image_places;
    member_pairs = v.member_pairs;
    history_ids = v.history_ids;
    chapters_refer = v.chapters_refer;
    images_refer = v.images_refer;
    history_refers = v.history_refers;
  }

  -- A chapter that stays is still there for what refers to it and stays.
  still_there :
      {A : Type 0} (test : ChapterRow → Bool) (key : A → ℕ) (rows : List A)
      → All (λ x. Refers chapter_id d.chapters (key x)) rows
      → All
          (λ x. Refers chapter_id (select (λ c. not (test c)) d.chapters) (key x))
          (select (λ x. not (gone test d.chapters (key x))) rows)
  still_there {A} test key rows h =
      All-map
        (λ x. Refers chapter_id d.chapters (key x) × (not (gone test d.chapters (key x)) ≡ true))
        (λ x. Refers chapter_id (select (λ c. not (test c)) d.chapters) (key x))
        (select (λ x. not (gone test d.chapters (key x))) rows)
        (λ x r. has-kept chapter_id test (key x) d.chapters r.0 (ground (arith, r.1)))
        (select-both (λ x. Refers chapter_id d.chapters (key x))
          (λ x. not (gone test d.chapters (key x))) rows h)

  pub IsValid-drop_chapters : (test : ChapterRow → Bool) → IsValid (drop_chapters test d)
  unfolding drop_chapters
  IsValid-drop_chapters test = record {
    chapter_ids = Keyed-select chapter_id (λ c. not (test c)) d.chapters v.chapter_ids;
    chapter_urls =
        Unique-select chapter_url same_chapter_url (λ c. not (test c)) d.chapters v.chapter_urls;
    image_places =
        Unique-select place_of same_pair (λ i. not (gone test d.chapters i.chapter_id)) d.images
          v.image_places;
    history_ids =
        Keyed-select history_key (λ h. not (gone test d.chapters h.chapter_id)) d.history
          v.history_ids;
    chapters_refer =
        All-map (λ c. Refers media_id d.media c.media_id × (not (test c) ≡ true))
          (λ c. Refers media_id d.media c.media_id) (select (λ c. not (test c)) d.chapters)
          (λ c r. r.0)
          (select-both (λ c. Refers media_id d.media c.media_id) (λ c. not (test c)) d.chapters
            v.chapters_refer);
    images_refer = still_there test (λ (i : ImageRow). i.chapter_id) d.images v.images_refer;
    history_refers = still_there test (λ (h : HistoryRow). h.chapter_id) d.history v.history_refers;
    media_ids = v.media_ids;
    media_urls = v.media_urls;
    collection_ids = v.collection_ids;
    member_pairs = v.member_pairs;
    members_refer = v.members_refer;
  }

  pub IsValid-drop_media : (i : ℕ) → IsValid (drop_media i d)
  unfolding drop_media drop_chapters
  IsValid-drop_media i =
      let w = IsValid-drop_chapters (of_media i) in
      record {
        media_ids = Keyed-select media_id (λ m. not (m.id == i)) d.media v.media_ids;
        media_urls = Unique-select url same_url (λ m. not (m.id == i)) d.media v.media_urls;
        member_pairs =
            Unique-select member_of same_pair (λ m. not (m.media_id == i)) d.members v.member_pairs;
        chapters_refer =
            All-map (λ c. Refers media_id d.media c.media_id × (not (of_media i c) ≡ true))
              (λ c. Refers media_id (select (λ m. not (m.id == i)) d.media) c.media_id)
              (select (λ c. not (of_media i c)) d.chapters)
              (λ c r. rw (has-other media_id c.media_id i d.media (ground (arith, r.1))) r.0)
              (select-both (λ c. Refers media_id d.media c.media_id) (λ c. not (of_media i c))
                d.chapters v.chapters_refer);
        members_refer =
            All-map
              (λ m.
                (Refers collection_id d.collections m.collection_id
                  × Refers media_id d.media m.media_id)
                × (not (m.media_id == i) ≡ true))
              (λ m.
                Refers collection_id d.collections m.collection_id
                × Refers media_id (select (λ m. not (m.id == i)) d.media) m.media_id)
              (select (λ m. not (m.media_id == i)) d.members)
              (λ m r.
                (r.0.0, rw (has-other media_id m.media_id i d.media (ground (arith, r.1))) r.0.1))
              (select-both
                (λ m.
                  Refers collection_id d.collections m.collection_id
                  × Refers media_id d.media m.media_id)
                (λ m. not (m.media_id == i)) d.members v.members_refer);
        chapter_ids = w.chapter_ids;
        chapter_urls = w.chapter_urls;
        image_places = w.image_places;
        collection_ids = w.collection_ids;
        history_ids = w.history_ids;
        images_refer = w.images_refer;
        history_refers = w.history_refers;
      }
