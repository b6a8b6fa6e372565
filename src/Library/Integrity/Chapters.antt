-- ===== src/Library/Integrity/Chapters.antt =====
-- internal/library/sqlite/repository.go: UpsertChapter on valid tables.
use mathlib.Core.Path.{subst}
use shiori_server.Prelude.{
  ℕ, ◌≡◌, refl, ◌∙◌, inl, inr, Bool, true, false, not, some, List, [], ◌∷◌, ◌++◌, arith, ◌==◌, All,
  Bool-cases, Option-cases,
}
use shiori_server.Prelude.Rows.{has-append, select, amend, first, has}
use shiori_server.Prelude.Tables.{
  select-All, select_All, All-map, append-All, amend-All, any-false, first-none, Keyed-append,
  Keyed-amend, has-amend, has-grown, Unique, Unique-select, Unique-append, Unique-amend,
}
use shiori_server.Library.Types.{
  ChapterImage, ChapterRequest, ChapterRow, ImageRow, Database, Call, ok, err, Result,
}
use shiori_server.Library.Media.{media_id, chapter_id}
use shiori_server.Library.Chapters.{
  same_chapter, renewed, new_chapter, has_position, repeats, image_rows, with_images, put_chapter,
  put_images, then_images, upsert_chapter,
}
use shiori_server.Library.Integrity.Tables.{
  chapter_url, place_of, same_chapter_url, same_pair, Refers, IsValid, chapters_changed,
}
use shiori_server.Library.Integrity.Changes.{unless-IsValid}

module _ (d : Database) (v : IsValid d) where
  -- The rows of a chapter's images, put in place of the old ones.
  place_taken :
      (i p : ℕ) (images : List ChapterImage)
      → has_position p images ≡ false
      → All (λ r. same_pair (i, p) (place_of r) ≡ false) (image_rows i images)
  place_taken i p [] h = tt
  place_taken i p (x ∷ xs) h = (ground (arith, h), place_taken i p xs (ground (arith, h)))

  Unique-image_rows :
      (i : ℕ) (images : List ChapterImage)
      → repeats images ≡ false
      → Unique place_of same_pair (image_rows i images)
  unfolding repeats
  Unique-image_rows i [] h = tt
  Unique-image_rows i (x ∷ xs) h =
      (place_taken i x.position xs (ground (arith, h)), Unique-image_rows i xs (ground (arith, h)))

  others_apart :
      (i : ℕ) (rows : List ImageRow) (images : List ChapterImage)
      → All (λ r. not (r.chapter_id == i) ≡ true) rows
      → All (λ y. All (λ x. same_pair (place_of x) (place_of y) ≡ false) rows) (image_rows i images)
  others_apart i rows [] h = tt
  others_apart i rows (x ∷ xs) h = (
    All-map (λ r. not (r.chapter_id == i) ≡ true)
        (λ r. same_pair (place_of r) (i, x.position) ≡ false) rows (λ r e. ground (arith, e)) h,
    others_apart i rows xs h,
  )

  image_rows-All :
      (P : ℕ → Type 0) (i : ℕ) (images : List ChapterImage)
      → P i
      → All (λ r. P r.chapter_id) (image_rows i images)
  image_rows-All P i [] h = tt
  image_rows-All P i (x ∷ xs) h = (h, image_rows-All P i xs h)

  images_changed :
      (i : ℕ) (images : List ChapterImage)
      → Refers chapter_id d.chapters i
      → repeats images ≡ false
      → IsValid (record d { images = with_images i images d.images })
  images_changed i images there distinct =
      let other = select (λ r. not (r.chapter_id == i)) d.images in
      record {
        image_places =
            Unique-append place_of same_pair other (image_rows i images)
              (others_apart i other images (select-All (λ r. not (r.chapter_id == i)) d.images))
              (Unique-select place_of same_pair (λ r. not (r.chapter_id == i)) d.images
                v.image_places)
              (Unique-image_rows i images distinct);
        images_refer =
            append-All (λ r. Refers chapter_id d.chapters r.chapter_id) other (image_rows i images)
              (select_All (λ r. Refers chapter_id d.chapters r.chapter_id)
                (λ r. not (r.chapter_id == i)) d.images v.images_refer)
              (image_rows-All (Refers chapter_id d.chapters) i images there);
        media_ids = v.media_ids;
        media_urls = v.media_urls;
        chapter_ids = v.chapter_ids;
        chapter_urls = v.chapter_urls;
        collection_ids = v.collection_ids;
        member_pairs = v.member_pairs;
        history_ids = v.history_ids;
        chapters_refer = v.chapters_refer;
        history_refers = v.history_refers;
        members_refer = v.members_refer;
      }

-- The first statement of upsert_chapter leaves valid tables and the chapter in them.
abbrev Put : Result ChapterRow × Database → Type 0
Put (err e, d) = Unit
Put (ok r, d) = IsValid d × Refers chapter_id d.chapters r.id

first-has :
    (test : ChapterRow → Bool) (rows : List ChapterRow) (r : ChapterRow)
    → first test rows ≡ some r
    → Refers chapter_id rows r.id × (test r ≡ true)
first-has test [] r h = cc h
first-has test (x ∷ xs) r h = elim (Bool-cases (test x)) [
  | inl e ↦
      let same : x ≡ r = ground (arith, h, e) in
      let there : Refers chapter_id (x ∷ xs) x.id = ground arith in
      (subst (λ y. Refers chapter_id (x ∷ xs) y.id) same there, subst (λ y. test y ≡ true) same e)
  | inr e ↦
      let (there, holds) = first-has test xs r (ground (arith, h, e)) in
      (ground (arith, there), holds)
]

Put-put_chapter :
    (d : Database) (v : IsValid d) (c : Call) (req : ChapterRequest) → Put (put_chapter c req d)
unfolding put_chapter
Put-put_chapter d v c req = elim (Bool-cases (has media_id req.media_id d.media)) [
  | inr absent ↦ rw absent tt
  | inl there ↦ elim (Option-cases (first (same_chapter req) d.chapters)) [
    | inr (r, found) ↦
        rw (there, found)
          (
            chapters_changed d v (amend (same_chapter req) (renewed req) d.chapters)
                (Keyed-amend chapter_id (same_chapter req) (renewed req) (λ x e. refl) d.chapters
                  v.chapter_ids)
                (Unique-amend chapter_url same_chapter_url (same_chapter req) (renewed req)
                  d.chapters (λ x e. refl) v.chapter_urls)
                (amend-All (λ x. Refers media_id d.media x.media_id) (same_chapter req)
                  (renewed req) d.chapters (λ x e h. h) v.chapters_refer)
                (λ k h.
                  has-amend chapter_id (same_chapter req) (renewed req) (λ x e. refl) k d.chapters
                  ∙ h),
            has-amend chapter_id (same_chapter req) (renewed req) (λ x e. refl) r.id d.chapters
                ∙ (first-has (same_chapter req) d.chapters r found).0,
          )
    | inl new ↦ elim (Bool-cases (has chapter_id c.ulid d.chapters)) [
      | inl taken ↦ rw (there, new, taken) tt
      | inr free ↦
          let apart =
            any-false (same_chapter req) d.chapters
              (first-none (same_chapter req) d.chapters new) in
          rw (there, new, free)
            (
              chapters_changed d v (d.chapters ++ new_chapter c req ∷ [])
                  (Keyed-append chapter_id (new_chapter c req) d.chapters free v.chapter_ids)
                  (Unique-append chapter_url same_chapter_url d.chapters (new_chapter c req ∷ [])
                    (apart, tt) v.chapter_urls (tt, tt))
                  (append-All (λ x. Refers media_id d.media x.media_id) d.chapters
                    (new_chapter c req ∷ []) v.chapters_refer (there, tt))
                  (λ k h. has-grown chapter_id k d.chapters (new_chapter c req ∷ []) h),
              ground (arith, has-append chapter_id c.ulid d.chapters (new_chapter c req ∷ [])),
            )
    ]
  ]
]

then_images-IsValid :
    (d : Database) (v : IsValid d) (c : Call) (req : ChapterRequest)
    (p : Result ChapterRow × Database)
    → Put p
    → IsValid (then_images c req d p).1
unfolding put_images
then_images-IsValid d v c req (err e, d') h = v
then_images-IsValid d v c req (ok r, d') h = elim (Bool-cases (repeats req.images)) [
  | inl twice ↦ rw twice v
  | inr distinct ↦
      rw distinct
        (unless-IsValid c.fault' d _ v (images_changed d' h.0 r.id req.images h.1 distinct))
]

pub IsValid-upsert_chapter :
    (d : Database)
    → IsValid d
    → (c : Call) (req : ChapterRequest) → IsValid (upsert_chapter c req d).1
unfolding upsert_chapter
IsValid-upsert_chapter d v c req =
    unless-IsValid c.fault d _ v
      (then_images-IsValid d v c req (put_chapter c req d) (Put-put_chapter d v c req))
