-- ===== src/Library/Integrity/Features.antt =====
-- internal/library/sqlite/features.go: collections, the reading history and
-- downloads, on valid tables.
use shiori_server.Prelude.{
  ℕ, ◌≡◌, refl, ◌∙◌, inl, inr, String, Bool, true, not, List, [], ◌∷◌, ◌++◌, arith, ◌==◌, All,
  Bool-cases,
}
use shiori_server.Prelude.Rows.{select, amend, any, has, Keyed}
use shiori_server.Prelude.Tables.{
  select_All, All-map, append-All, amend-All, any-false, Keyed-select, Keyed-append, Keyed-amend,
  has-amend, has-grown, has-other, select-both, Unique-select, Unique-append,
}
use shiori_server.Library.Types.{Collection, MemberRow, HistoryRow, Database, Call}
use shiori_server.Library.Media.{media_id, chapter_id}
use shiori_server.Library.Features.{
  collection_id, history_key, is_member, create_collection, update_collection, delete_collection,
  add_member, remove_member, upsert_history, delete_history, delete_download,
}
use shiori_server.Library.Integrity.Tables.{
  place_of, member_of, same_pair, Refers, IsValid, collections_changed,
}
use shiori_server.Library.Integrity.Changes.{unless-IsValid}

module _ (d : Database) (v : IsValid d) (c : Call) where
  pub IsValid-create_collection :
      (name : List ℕ) (description : String) → IsValid (create_collection c name description d).1
  unfolding create_collection
  IsValid-create_collection name description =
      let new : Collection = record {
        id = c.ulid;
        name = name;
        description = description;
        created_at = c.now;
        updated_at = c.now;
      } in
      elim (Bool-cases (has collection_id c.ulid d.collections)) [
        | inl taken ↦ rw taken v
        | inr free ↦ rw free (
            unless-IsValid c.fault d _ v (
              collections_changed d v (d.collections ++ new ∷ [])
                (Keyed-append collection_id new d.collections free v.collection_ids)
                (λ k r. has-grown collection_id k d.collections (new ∷ []) r)))
      ]

  pub IsValid-update_collection :
      (i : ℕ) (name : List ℕ) (description : String)
      → IsValid (update_collection c i name description d).1
  unfolding update_collection
  IsValid-update_collection i name description =
      let test = λ (x : Collection). x.id == i in
      let f = λ (x : Collection). record x {
        name = name;
        description = description;
        updated_at = c.now;
      } in
      let w =
        collections_changed d v (amend test f d.collections)
          (Keyed-amend collection_id test f (λ x e. refl) d.collections v.collection_ids)
          (λ k r. has-amend collection_id test f (λ x e. refl) k d.collections ∙ r) in
      elim (Bool-cases (has collection_id i d.collections)) [
        | inl there ↦ rw there (unless-IsValid c.fault d _ v (unless-IsValid c.fault' _ _ w w))
        | inr absent ↦ rw absent (unless-IsValid c.fault d _ v v)
      ]

  pub IsValid-delete_collection : (i : ℕ) → IsValid (delete_collection c i d).1
  unfolding delete_collection
  IsValid-delete_collection i = unless-IsValid c.fault d _ v (record {
    collection_ids =
        Keyed-select collection_id (λ x. not (x.id == i)) d.collections v.collection_ids;
    member_pairs =
        Unique-select member_of same_pair (λ m. not (m.collection_id == i)) d.members
          v.member_pairs;
    members_refer =
        All-map
          (λ m.
            (Refers collection_id d.collections m.collection_id
              × Refers media_id d.media m.media_id)
            × (not (m.collection_id == i) ≡ true))
          (λ m.
            Refers collection_id (select (λ x. not (x.id == i)) d.collections) m.collection_id
            × Refers media_id d.media m.media_id)
          (select (λ m. not (m.collection_id == i)) d.members)
          (λ m r. (
            rw (has-other collection_id m.collection_id i d.collections (ground (arith, r.1)))
                r.0.0,
            r.0.1,
          ))
          (select-both
            (λ m.
              Refers collection_id d.collections m.collection_id
              × Refers media_id d.media m.media_id)
            (λ m. not (m.collection_id == i)) d.members v.members_refer);
    media_ids = v.media_ids;
    media_urls = v.media_urls;
    chapter_ids = v.chapter_ids;
    chapter_urls = v.chapter_urls;
    image_places = v.image_places;
    history_ids = v.history_ids;
    chapters_refer = v.chapters_refer;
    images_refer = v.images_refer;
    history_refers = v.history_refers;
  })

  pub IsValid-add_member : (i j : ℕ) → IsValid (add_member c i j d).1
  unfolding add_member
  IsValid-add_member i j =
      let new : MemberRow = record { collection_id = i; media_id = j; added_at = c.now } in
      let refers = λ (m : MemberRow).
        Refers collection_id d.collections m.collection_id × Refers media_id d.media m.media_id in
      elim (Bool-cases (has collection_id i d.collections)) [
        | inr absent ↦ rw absent v
        | inl there ↦ elim (Bool-cases (has media_id j d.media)) [
          | inr absent ↦ rw (there, absent) v
          | inl there' ↦ elim (Bool-cases (any (is_member i j) d.members)) [
            | inl twice ↦ rw (there, there', twice) (unless-IsValid c.fault d _ v v)
            | inr once ↦
                rw (there, there', once)
                  (unless-IsValid c.fault d _ v (record {
                    member_pairs =
                        Unique-append member_of same_pair d.members (new ∷ [])
                          (any-false (is_member i j) d.members once, tt) v.member_pairs (tt, tt);
                    members_refer =
                        append-All refers d.members (new ∷ []) v.members_refer
                          ((there, there'), tt);
                    media_ids = v.media_ids;
                    media_urls = v.media_urls;
                    chapter_ids = v.chapter_ids;
                    chapter_urls = v.chapter_urls;
                    image_places = v.image_places;
                    collection_ids = v.collection_ids;
                    history_ids = v.history_ids;
                    chapters_refer = v.chapters_refer;
                    images_refer = v.images_refer;
                    history_refers = v.history_refers;
                  }))
          ]
        ]
      ]

  pub IsValid-remove_member : (i j : ℕ) → IsValid (remove_member c i j d).1
  unfolding remove_member
  IsValid-remove_member i j = unless-IsValid c.fault d _ v (record {
    member_pairs =
        Unique-select member_of same_pair (λ m. not (is_member i j m)) d.members v.member_pairs;
    members_refer =
        select_All
          (λ m.
            Refers collection_id d.collections m.collection_id × Refers media_id d.media m.media_id)
          (λ m. not (is_member i j m)) d.members v.members_refer;
    media_ids = v.media_ids;
    media_urls = v.media_urls;
    chapter_ids = v.chapter_ids;
    chapter_urls = v.chapter_urls;
    image_places = v.image_places;
    collection_ids = v.collection_ids;
    history_ids = v.history_ids;
    chapters_refer = v.chapters_refer;
    images_refer = v.images_refer;
    history_refers = v.history_refers;
  })

  history_changed :
      (rows : List HistoryRow)
      → Keyed history_key rows
      → All (λ h. Refers chapter_id d.chapters h.chapter_id) rows
      → IsValid (record d { history = rows })
  history_changed rows ids refer = record {
    history_ids = ids;
    history_refers = refer;
    media_ids = v.media_ids;
    media_urls = v.media_urls;
    chapter_ids = v.chapter_ids;
    chapter_urls = v.chapter_urls;
    image_places = v.image_places;
    collection_ids = v.collection_ids;
    member_pairs = v.member_pairs;
    chapters_refer = v.chapters_refer;
    images_refer = v.images_refer;
    members_refer = v.members_refer;
  }

  pub IsValid-upsert_history :
      (i position progress : ℕ) (completed : Bool)
      → IsValid (upsert_history c i position progress completed d).1
  unfolding upsert_history
  IsValid-upsert_history i position progress completed =
      let new : HistoryRow = record {
        chapter_id = i;
        position = position;
        progress = progress;
        completed = completed;
        updated_at = c.now;
      } in
      let test = λ (h : HistoryRow). h.chapter_id == i in
      let refers = λ (h : HistoryRow). Refers chapter_id d.chapters h.chapter_id in
      elim (Bool-cases (has chapter_id i d.chapters)) [
        | inr absent ↦ rw absent v
        | inl there ↦ elim (Bool-cases (has history_key i d.history)) [
          | inl read ↦
              let w =
                history_changed (amend test (λ h. new) d.history)
                  (Keyed-amend history_key test (λ h. new) (λ h e. ground (arith, e)) d.history
                    v.history_ids)
                  (amend-All refers test (λ h. new) d.history (λ h e r. there) v.history_refers) in
              rw (there, read) (unless-IsValid c.fault d _ v (unless-IsValid c.fault' _ _ w w))
          | inr unread ↦
              let w =
                history_changed (d.history ++ new ∷ [])
                  (Keyed-append history_key new d.history unread v.history_ids)
                  (append-All refers d.history (new ∷ []) v.history_refers (there, tt)) in
              rw (there, unread) (unless-IsValid c.fault d _ v (unless-IsValid c.fault' _ _ w w))
        ]
      ]

  pub IsValid-delete_history : (i : ℕ) → IsValid (delete_history c i d).1
  unfolding delete_history
  IsValid-delete_history i = unless-IsValid c.fault d _ v (
      history_changed (select (λ h. not (h.chapter_id == i)) d.history)
        (Keyed-select history_key (λ h. not (h.chapter_id == i)) d.history v.history_ids)
        (select_All (λ h. Refers chapter_id d.chapters h.chapter_id) (λ h. not (h.chapter_id == i))
          d.history v.history_refers))

  pub IsValid-delete_download : (i : ℕ) → IsValid (delete_download c i d).1
  unfolding delete_download
  IsValid-delete_download i = unless-IsValid c.fault d _ v (
      unless-IsValid c.fault' d _ v (record {
        image_places =
            Unique-select place_of same_pair (λ r. not (r.chapter_id == i)) d.images v.image_places;
        images_refer =
            select_All (λ r. Refers chapter_id d.chapters r.chapter_id)
              (λ r. not (r.chapter_id == i)) d.images v.images_refer;
        media_ids = v.media_ids;
        media_urls = v.media_urls;
        chapter_ids = v.chapter_ids;
        chapter_urls = v.chapter_urls;
        collection_ids = v.collection_ids;
        member_pairs = v.member_pairs;
        history_ids = v.history_ids;
        chapters_refer = v.chapters_refer;
        history_refers = v.history_refers;
        members_refer = v.members_refer;
      }))
