-- ===== src/Library/Http/Checks.antt =====
-- internal/library/http.go: what the checks of the requests' bodies keep out of the database.
use mathlib.Core.Path.{subst}
use shiori_server.Prelude.{
  ℕ, ◌≡◌, ◌≤◌, refl, String, Bool, false, not, ◌&&◌, ◌||◌, Option, none, some, List, [], ◌∷◌, ◌++◌,
  arith, inl, inr, ltb, ◌==◌, str_eq, All, Bool-cases, Option-cases,
}
use shiori_server.Chunker.Text.{trim_space}
use shiori_server.Prelude.Rows.{amend, any, first, has}
use shiori_server.Prelude.Tables.{append-All, amend-All}
use shiori_server.Library.Types.{
  MediaRequest, Media, Collection, HistoryRow, MemberRow, Database, Call, Result, ok, err, unless,
}
use shiori_server.Library.Media.{
  media_id, chapter_id, has_url, overwritten, new_media, create_media,
}
use shiori_server.Library.Features.{
  collection_id, history_key, create_collection, update_collection, add_member, upsert_history,
  is_member,
}
use shiori_server.Library.Http.Names.{IsNamed, trim_space-IsNamed}
use shiori_server.Library.Http.Media.{is_blank_key, media_made, handle_create_media}
use shiori_server.Library.Http.Features.{
  CollectionPayload, HistoryPayload, Signed, below_zero, natural, named, named_created,
  named_updated, done, with_status, collection_updated, put_progress, handle_create_collection,
  handle_update_collection, handle_upsert_history,
}

-- What each row has that a request's body gave.
pub record IsChecked (d : Database) : Type 0 where
  pub media_filled :
      All
        (λ m.
          (str_eq m.content.title "" || str_eq m.content.kind "" || str_eq m.content.status "")
          ≡ false)
        d.media
  pub collections_named : All (λ x. IsNamed x.name) d.collections
  pub progress_bounded : All (λ h. h.progress ≤ 1000000) d.history

pub unless-IsChecked :
    {A : Type 0} (o : Option String) (d : Database) (r : Result A × Database)
    → IsChecked d
    → IsChecked r.1
    → IsChecked (unless o d r).1
unless-IsChecked none d r v w = w
unless-IsChecked (some e) d r v w = v

media_made_lem : (r : Result Media × Database) → (media_made r).1 ≡ r.1
media_made_lem (ok m, d) = refl
media_made_lem (err e, d) = refl

with_status_lem : {A : Type 0} (n : ℕ) (r : Result A × Database) → (with_status n r).1 ≡ r.1
with_status_lem n (ok a, d) = refl
with_status_lem n (err e, d) = refl

pub done_lem : (r : Result (Unit {0}) × Database) → (done r).1 ≡ r.1
done_lem (ok u, d) = refl
done_lem (err e, d) = refl

updated_lem : (r : Result (Option Collection) × Database) → (collection_updated r).1 ≡ r.1
updated_lem (ok none, d) = refl
updated_lem (ok (some x), d) = refl
updated_lem (err e, d) = refl

named_lem :
    (body : Option CollectionPayload) (p : List ℕ × String) → named body ≡ some p → IsNamed p.0
unfolding named
named_lem none p h = cc h
named_lem (some q) p h = elim (Bool-cases (is_blank_key (trim_space q.name))) [
  | inl blank ↦ ground (arith, h, blank)
  | inr kept ↦
      let same : ◌≡◌ {A = List ℕ × String} (trim_space q.name, q.description) p =
        ground (arith, h, kept) in
      subst (λ x. IsNamed x.0) same (trim_space-IsNamed q.name kept)
]

module _ (c : Call) (d : Database) (v : IsChecked d) where
  media-IsChecked :
      (rows : List Media)
      → All
          (λ m.
            (str_eq m.content.title "" || str_eq m.content.kind "" || str_eq m.content.status "")
            ≡ false)
          rows
      → IsChecked (record d { media = rows })
  media-IsChecked rows h = record {
    media_filled = h;
    collections_named = v.collections_named;
    progress_bounded = v.progress_bounded;
  }

  collections-IsChecked :
      (rows : List Collection)
      → All (λ x. IsNamed x.name) rows
      → IsChecked (record d { collections = rows })
  collections-IsChecked rows h = record {
    media_filled = v.media_filled;
    collections_named = h;
    progress_bounded = v.progress_bounded;
  }

  pub history-IsChecked :
      (rows : List HistoryRow)
      → All (λ h. h.progress ≤ 1000000) rows
      → IsChecked (record d { history = rows })
  history-IsChecked rows h = record {
    media_filled = v.media_filled;
    collections_named = v.collections_named;
    progress_bounded = h;
  }

  pub members-IsChecked : (rows : List MemberRow) → IsChecked (record d { members = rows })
  members-IsChecked rows = record {
    media_filled = v.media_filled;
    collections_named = v.collections_named;
    progress_bounded = v.progress_bounded;
  }

  IsChecked-create_media :
      (req : MediaRequest)
      → (str_eq req.title "" || str_eq req.kind "" || str_eq req.status "") ≡ false
      → IsChecked (create_media c req d).1
  unfolding create_media
  IsChecked-create_media req filled =
      unless-IsChecked c.fault d _ v (elim (Option-cases (first (has_url req.source_url) d.media)) [
        | inr (m, found) ↦ rw found (
            media-IsChecked (amend (has_url req.source_url) (overwritten c req) d.media) (
              amend-All
                (λ m.
                  (str_eq m.content.title ""
                    || str_eq m.content.kind ""
                    || str_eq m.content.status "")
                  ≡ false)
                (has_url req.source_url) (overwritten c req) d.media (λ m e h. filled)
                v.media_filled))
        | inl new ↦ elim (Bool-cases (has media_id c.ulid d.media)) [
          | inl taken ↦ rw (new, taken) v
          | inr free ↦
              rw (new, free)
                (media-IsChecked (d.media ++ new_media c req ∷ []) (
                  append-All
                    (λ m.
                      (str_eq m.content.title ""
                        || str_eq m.content.kind ""
                        || str_eq m.content.status "")
                      ≡ false)
                    d.media (new_media c req ∷ []) v.media_filled (filled, tt)))
        ]
      ])

  pub IsChecked-handle_create_media :
      (body : Option MediaRequest) → IsChecked (handle_create_media c body d).1
  unfolding handle_create_media
  IsChecked-handle_create_media none = v
  IsChecked-handle_create_media (some req) =
      elim (Bool-cases (str_eq req.title "" || str_eq req.kind "" || str_eq req.status "")) [
        | inl empty ↦ rw empty v
        | inr filled ↦
            rw (filled, media_made_lem (create_media c req d)) (IsChecked-create_media req filled)
      ]

  IsChecked-create_collection :
      (name : List ℕ) (text : String) → IsNamed name → IsChecked (create_collection c name text d).1
  unfolding create_collection
  IsChecked-create_collection name text h =
      let new : Collection = record {
        id = c.ulid;
        name = name;
        description = text;
        created_at = c.now;
        updated_at = c.now;
      } in
      elim (Bool-cases (has collection_id c.ulid d.collections)) [
        | inl taken ↦ rw taken v
        | inr free ↦ rw free (
            unless-IsChecked c.fault d _ v (
              collections-IsChecked (d.collections ++ new ∷ []) (
                append-All (λ x. IsNamed x.name) d.collections (new ∷ []) v.collections_named
                  (h, tt))))
      ]

  IsChecked-update_collection :
      (i : ℕ) (name : List ℕ) (text : String)
      → IsNamed name
      → IsChecked (update_collection c i name text d).1
  unfolding update_collection
  IsChecked-update_collection i name text h =
      let w =
        collections-IsChecked
          (amend (λ x. x.id == i)
            (λ x. record x { name = name; description = text; updated_at = c.now }) d.collections)
          (amend-All (λ x. IsNamed x.name) (λ x. x.id == i)
            (λ x. record x { name = name; description = text; updated_at = c.now }) d.collections
            (λ x e k. h) v.collections_named) in
      elim (Bool-cases (has collection_id i d.collections)) [
        | inl there ↦ rw there (unless-IsChecked c.fault d _ v (unless-IsChecked c.fault' _ _ w w))
        | inr absent ↦ rw absent (unless-IsChecked c.fault d _ v v)
      ]

  pub IsChecked-put_member : (i j : ℕ) → IsChecked (add_member c i j d).1
  unfolding add_member
  IsChecked-put_member i j =
      let w =
        members-IsChecked
          (d.members ++ record { collection_id = i; media_id = j; added_at = c.now } ∷ []) in
      elim (Bool-cases (not (has collection_id i d.collections && has media_id j d.media))) [
        | inl absent ↦ rw absent v
        | inr there ↦ elim (Bool-cases (any (is_member i j) d.members)) [
          | inl twice ↦ rw (there, twice) (unless-IsChecked c.fault d _ v v)
          | inr once ↦ rw (there, once) (unless-IsChecked c.fault d _ v w)
        ]
      ]

  IsChecked-upsert_history :
      (i position progress : ℕ) (completed : Bool)
      → progress ≤ 1000000
      → IsChecked (upsert_history c i position progress completed d).1
  unfolding upsert_history
  IsChecked-upsert_history i position progress completed h =
      let new : HistoryRow = record {
        chapter_id = i;
        position = position;
        progress = progress;
        completed = completed;
        updated_at = c.now;
      } in
      let bounded = λ (x : HistoryRow). x.progress ≤ 1000000 in
      elim (Bool-cases (has chapter_id i d.chapters)) [
        | inr absent ↦ rw absent v
        | inl there ↦ elim (Bool-cases (has history_key i d.history)) [
          | inl read ↦
              let w = history-IsChecked (amend (λ x. x.chapter_id == i) (λ x. new) d.history) (
                amend-All bounded (λ x. x.chapter_id == i) (λ x. new) d.history (λ x e k. h)
                  v.progress_bounded) in
              rw (there, read) (unless-IsChecked c.fault d _ v (unless-IsChecked c.fault' _ _ w w))
          | inr unread ↦
              let w =
                history-IsChecked (d.history ++ new ∷ [])
                  (append-All bounded d.history (new ∷ []) v.progress_bounded (h, tt)) in
              rw (there, unread)
                (unless-IsChecked c.fault d _ v (unless-IsChecked c.fault' _ _ w w))
        ]
      ]

  pub IsChecked-put_history :
      (i : ℕ) (body : Option HistoryPayload) → IsChecked (handle_upsert_history c i body d).1
  unfolding handle_upsert_history
  IsChecked-put_history i none = v
  IsChecked-put_history i (some p) = go p.progress p.position
    where
      go :
          (progress position : Signed)
          → IsChecked (put_progress c i p.completed progress position d).1
      go below_zero position = v
      go (natural n) below_zero = v
      go (natural n) (natural k) = elim (Bool-cases (ltb 1000000 n)) [
        | inl e ↦ rw e v
        | inr e ↦
            rw (e, with_status_lem 200 (upsert_history c i k n p.completed d))
              (IsChecked-upsert_history i k n p.completed (ground (arith, e)))
      ]

  named_created_lem :
      (o : Option (List ℕ × String))
      → ((p : List ℕ × String) → o ≡ some p → IsNamed p.0)
      → IsChecked (named_created c o d).1
  named_created_lem none h = v
  named_created_lem (some (name, text)) h =
      rw (with_status_lem 201 (create_collection c name text d))
        (IsChecked-create_collection name text (h (name, text) refl))

  pub IsChecked-post_collection :
      (body : Option CollectionPayload) → IsChecked (handle_create_collection c body d).1
  unfolding handle_create_collection
  IsChecked-post_collection body = named_created_lem (named body) (named_lem body)

  named_updated_lem :
      (i : ℕ) (o : Option (List ℕ × String))
      → ((p : List ℕ × String) → o ≡ some p → IsNamed p.0)
      → IsChecked (named_updated c i o d).1
  named_updated_lem i none h = v
  named_updated_lem i (some (name, text)) h =
      rw (updated_lem (update_collection c i name text d))
        (IsChecked-update_collection i name text (h (name, text) refl))

  pub IsChecked-patch_collection :
      (i : ℕ) (body : Option CollectionPayload) → IsChecked (handle_update_collection c i body d).1
  unfolding handle_update_collection
  IsChecked-patch_collection i body = named_updated_lem i (named body) (named_lem body)
