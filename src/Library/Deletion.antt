-- ===== src/Library/Deletion.antt =====
-- internal/library/sqlite/repository.go: Delete.
use shiori_server.Prelude.{
  ℕ, suc, ◌+◌, ◌≡◌, ◌≢◌, refl, Bool, true, false, not, ◌&&◌, none, List, [], ◌∷◌, arith, inl, inr,
  ◌==◌, same_bytes, if◌then◌else◌, All, Bool-cases,
}
use shiori_server.Prelude.Rows.{select, any, has, row}
use shiori_server.Prelude.Tables.{select-All, All-map}
use shiori_server.Library.Types.{Media, ChapterRow, ImageRow, Database, Call, ok}
use shiori_server.Library.Chapters.{images_of}
use shiori_server.Library.Media.{
  media_id, gone, keys_of, of_media, drop_chapters, drop_media, storage_keys, delete_media,
}

-- How often a key stands in a list.
abbrev pub times : List ℕ → List (List ℕ) → ℕ
times s [] = 0
times s (t ∷ ts) = if same_bytes t s then suc (times s ts) else times s ts

times-keys_of :
    (s : List ℕ) (test : ImageRow → Bool) (rows : List ImageRow)
    → times s (keys_of rows)
      ≡ times s (keys_of (select test rows)) + times s (keys_of (select (λ r. not (test r)) rows))
times-keys_of s test [] = refl
times-keys_of s test (r ∷ rs) = elim (Bool-cases (test r)) [
  | inl e ↦ rw e (ground (arith, times-keys_of s test rs))
  | inr e ↦ rw e (ground (arith, times-keys_of s test rs))
]

row-deleted :
    (i k : ℕ) (rows : List Media)
    → row media_id k (select (λ m. not (m.id == i)) rows)
      ≡ (if k == i then none else row media_id k rows)
row-deleted i k [] = ground arith
row-deleted i k (m ∷ ms) = ground (arith, row-deleted i k ms)

images-select :
    (test : ImageRow → Bool) (i : ℕ) (rows : List ImageRow)
    → ((r : ImageRow) → r.chapter_id ≡ i → test r ≡ true)
    → images_of i (select test rows) ≡ images_of i rows
images-select test i [] h = refl
images-select test i (r ∷ rs) h = elim (Bool-cases (r.chapter_id == i)) [
  | inl e ↦ rw (h r (ground (arith, e)), e, images-select test i rs h) refl
  | inr e ↦ elim (Bool-cases (test r)) [
    | inl k ↦ rw (k, e, images-select test i rs h) refl
    | inr k ↦ rw (k, e, images-select test i rs h) refl
  ]
]

no_images :
    (test : ImageRow → Bool) (i : ℕ) (rows : List ImageRow)
    → ((r : ImageRow) → r.chapter_id ≡ i → test r ≡ false)
    → images_of i (select test rows) ≡ []
no_images test i [] h = refl
no_images test i (r ∷ rs) h = elim (Bool-cases (r.chapter_id == i)) [
  | inl e ↦ rw (h r (ground (arith, e)), no_images test i rs h) refl
  | inr e ↦ elim (Bool-cases (test r)) [
    | inl k ↦ rw (k, e, no_images test i rs h) refl
    | inr k ↦ rw (k, no_images test i rs h) refl
  ]
]

pub deleted :
    (c : Call) (i : ℕ) (d : Database)
    → c.fault ≡ none
    → c.fault' ≡ none
    → delete_media c i d ≡ (ok (storage_keys i d, has media_id i d.media), drop_media i d)
unfolding delete_media
deleted c i d quiet quiet' = rw (quiet, quiet') refl

-- The database d' is what d is without the media i, and the keys are those of the images that
-- vanished, each as often as it did: that media is not there and any other is as before, no chapter
-- of it is left, a chapter that was of it has no images, and any other has those that it had.
abbrev pub Withdrawn : ℕ → Database → List (List ℕ) → Database → Type 0
Withdrawn i d keys d' =
    ((s : List ℕ) → times s (keys_of d.images) ≡ times s keys + times s (keys_of d'.images))
    × ((k : ℕ) → row media_id k d'.media ≡ (if k == i then none else row media_id k d.media))
    × All (λ r. r.media_id ≢ i) d'.chapters
    × ((k : ℕ)
        → any (λ r. r.id == k && r.media_id == i) d.chapters ≡ true
        → images_of k d'.images ≡ [])
    × ((k : ℕ)
        → any (λ r. r.id == k && r.media_id == i) d.chapters ≡ false
        → images_of k d'.images ≡ images_of k d.images)

pub drop_media-Withdrawn :
    (i : ℕ) (d : Database) → Withdrawn i d (storage_keys i d) (drop_media i d)
unfolding storage_keys drop_media drop_chapters
drop_media-Withdrawn i d =
    let vanishes = λ (r : ImageRow). gone (of_media i) d.chapters r.chapter_id in
    let stays = λ (r : ChapterRow). not (of_media i r) in
    (
      λ s. times-keys_of s vanishes d.images,
      λ k. row-deleted i k d.media,
      All-map (λ r. stays r ≡ true) (λ r. r.media_id ≢ i) (select stays d.chapters)
          (λ r e. ground (arith, e)) (select-All stays d.chapters),
      λ k one. no_images (λ r. not (vanishes r)) k d.images (λ r e. rw (e, one) refl),
      λ k other. images-select (λ r. not (vanishes r)) k d.images (λ r e. rw (e, other) refl),
    )

-- Where no statement fails, deleting a media answers with the storage keys of the images that
-- vanish, each as often as it vanishes, and with whether the media was there; afterwards that media
-- is not there and any other is as before, no chapter of it is left, and a chapter of no or another
-- media has the images that it had.
pub delete_media_lem :
    (c : Call) (i : ℕ) (d : Database)
    → c.fault ≡ none
    → c.fault' ≡ none
    → (keys : List (List ℕ)) × ((delete_media c i d).0 ≡ ok (keys, has media_id i d.media))
      × ((s : List ℕ)
          → times s (keys_of d.images)
            ≡ times s keys + times s (keys_of (delete_media c i d).1.images))
      × ((k : ℕ)
          → row media_id k (delete_media c i d).1.media
            ≡ (if k == i then none else row media_id k d.media))
      × All (λ r. r.media_id ≢ i) (delete_media c i d).1.chapters
      × ((k : ℕ)
          → any (λ r. r.id == k && r.media_id == i) d.chapters ≡ false
          → images_of k (delete_media c i d).1.images ≡ images_of k d.images)
delete_media_lem c i d quiet quiet' =
    let (counted, media, chapters, _, others) = drop_media-Withdrawn i d in
    rw (deleted c i d quiet quiet') (storage_keys i d, refl, counted, media, chapters, others)
