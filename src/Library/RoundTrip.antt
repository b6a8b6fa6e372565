-- ===== src/Library/RoundTrip.antt =====
-- internal/library/sqlite/repository.go: what is read after UpsertChapter.
use mathlib.Core.Path.{subst}
use shiori_server.Prelude.{
  ℕ, ◌<◌, ◌≡◌, ◌≢◌, refl, ap, ◌∙◌, Bool, true, false, none, some, List, [], ◌∷◌, ◌++◌, arith, inl,
  inr, ltb, ◌==◌, eq_iff, All, Bool-cases, Option-cases,
}
use shiori_server.Prelude.Rows.{amend, first, order_by, place, has, row, Keyed}
use shiori_server.Library.Types.{
  ChapterImage, ChapterRequest, ChapterRow, ImageRow, Database, Call, ok,
}
use shiori_server.Library.Media.{media_id, chapter_id}
use shiori_server.Library.Chapters.{
  same_chapter, renewed, new_chapter, has_position, repeats, image_rows, with_images, put_chapter,
  put_images, to_chapter, upsert_chapter, images_of, list_images, get_chapter, by_position,
}
use shiori_server.Library.Integrity.Tables.{IsValid}

module _ {A : Type 0} where
  first-All :
      (P : A → Type 0) (test : A → Bool) (x : A) (xs : List A)
      → first test xs ≡ some x
      → All P xs
      → P x × (test x ≡ true)
  first-All P test x [] e h = cc e
  first-All P test x (y ∷ ys) e h = elim (Bool-cases (test y)) [
    | inl t ↦
        let here : y ≡ x = ground (arith, e, t) in
        (subst P here h.0, subst (λ z. test z ≡ true) here t)
    | inr t ↦ first-All P test x ys (ground (arith, e, t)) h.1
  ]

module _ {A : Type 0} (key : A → ℕ) where
  row-amend :
      (test : A → Bool) (f : A → A) (x : A) (xs : List A)
      → ((y : A) → test y ≡ true → key (f y) ≡ key y)
      → Keyed key xs
      → first test xs ≡ some x
      → row key (key x) (amend test f xs) ≡ some (f x)
  row-amend test f x [] same h e = cc e
  row-amend test f x (y ∷ ys) same h e = elim (Bool-cases (test y)) [
    | inl t ↦
        let here : y ≡ x = ground (arith, e, t) in
        let self : key y == key x ≡ true = rw here (ground arith) in
        rw (t, same y t, self, here) refl
    | inr t ↦
        let later : first test ys ≡ some x = ground (arith, e, t) in
        let other : key y == key x ≡ false =
          let (apart, holds) = first-All (λ z. key z ≢ key y) test x ys later h.0 in
          ground (arith, apart) in
        rw (t, other) (row-amend test f x ys same h.1 later)
  ]

  row-append :
      (x : A) (xs : List A) → has key (key x) xs ≡ false → row key (key x) (xs ++ x ∷ []) ≡ some x
  row-append x [] h = ground arith
  row-append x (y ∷ ys) h = ground (arith, h, row-append x ys)

abbrev pub OfRequest : ChapterRequest → ChapterRow → Type 0
OfRequest req r =
    (r.media_id ≡ req.media_id)
    × (r.source_url ≡ req.source_url)
    × (r.number ≡ req.number)
    × (r.title ≡ req.title)
    × (r.video_url ≡ req.video_url)

put_chapter_lem :
    (c : Call) (req : ChapterRequest) (d : Database)
    → Keyed chapter_id d.chapters
    → has media_id req.media_id d.media ≡ true
    → has chapter_id c.ulid d.chapters ≡ false
    → (r : ChapterRow) × (d' : Database) × (put_chapter c req d ≡ (ok r, d'))
      × (row chapter_id r.id d'.chapters ≡ some r)
      × OfRequest req r
unfolding put_chapter
put_chapter_lem c req d keyed there free =
    elim (Option-cases (first (same_chapter req) d.chapters)) [
      | inr (x, found) ↦
          let (u, holds) =
            first-All (λ y. Unit {0}) (same_chapter req) x d.chapters found (All-Unit d.chapters) in
          (
            renewed req x,
            record d { chapters = amend (same_chapter req) (renewed req) d.chapters },
            rw (there, found) refl,
            row-amend chapter_id (same_chapter req) (renewed req) x d.chapters (λ y e. refl) keyed
                found,
            (
              ground (arith, holds),
              (eq_iff x.source_url req.source_url).0 (ground (arith, holds)),
              refl,
              refl,
              refl,
            ),
          )
      | inl new ↦ (
        new_chapter c req,
        record d { chapters = d.chapters ++ new_chapter c req ∷ [] },
        rw (there, new, free) refl,
        row-append chapter_id (new_chapter c req) d.chapters free,
        (refl, refl, refl, refl, refl),
      )
    ]
  where
    All-Unit : (xs : List ChapterRow) → All (λ y. Unit {0}) xs
    All-Unit [] = tt
    All-Unit (x ∷ xs) = (tt, All-Unit xs)

-- Images in the order of their positions, which are distinct.
abbrev pub Rises : List ChapterImage → Type 0
Rises [] = Unit
Rises (x ∷ xs) = All (λ y. x.position < y.position) xs × Rises xs

place-least :
    (x : ChapterImage) (xs : List ChapterImage)
    → All (λ y. x.position < y.position) xs
    → place by_position x xs ≡ x ∷ xs
place-least x [] h = refl
place-least x (y ∷ ys) h =
    let after : ltb y.position x.position ≡ false = ground (arith, h.0) in rw after refl

order_by-Rises : (xs : List ChapterImage) → Rises xs → order_by by_position xs ≡ xs
order_by-Rises [] h = refl
order_by-Rises (x ∷ xs) h = rw (order_by-Rises xs h.1) (place-least x xs h.0)

least_once :
    (p : ℕ) (xs : List ChapterImage) → All (λ y. p < y.position) xs → has_position p xs ≡ false
least_once p [] h = refl
least_once p (y ∷ ys) h = ground (arith, h.0, least_once p ys h.1)

repeats-Rises : (xs : List ChapterImage) → Rises xs → repeats xs ≡ false
unfolding repeats
repeats-Rises [] h = refl
repeats-Rises (x ∷ xs) h = rw (least_once x.position xs h.0) (repeats-Rises xs h.1)

images_of-image_rows : (i : ℕ) (xs : List ChapterImage) → images_of i (image_rows i xs) ≡ xs
images_of-image_rows i [] = refl
images_of-image_rows i (x ∷ xs) = ground (arith, images_of-image_rows i xs)

images_of-with_images :
    (i : ℕ) (xs : List ChapterImage) (rows : List ImageRow)
    → images_of i (with_images i xs rows) ≡ xs
images_of-with_images i xs [] = images_of-image_rows i xs
images_of-with_images i xs (r ∷ rs) = elim (Bool-cases (r.chapter_id == i)) [
  | inl e ↦ rw e (images_of-with_images i xs rs)
  | inr e ↦ rw (e, e) (images_of-with_images i xs rs)
]

module _ (c c' : Call) (req : ChapterRequest) (r : ChapterRow) (d d' : Database) where
  upserted :
      c.fault ≡ none
      → c.fault' ≡ none
      → put_chapter c req d ≡ (ok r, d')
      → repeats req.images ≡ false
      → upsert_chapter c req d ≡ (ok (to_chapter req.images r), put_images r.id req.images d')
  unfolding upsert_chapter
  upserted quiet quiet' put once = rw put (rw once (rw (quiet, quiet') refl))

  got :
      c'.fault ≡ none
      → c'.fault' ≡ none
      → row chapter_id r.id d'.chapters ≡ some r
      → Rises req.images
      → get_chapter c' r.id (put_images r.id req.images d') ≡ ok (some (to_chapter req.images r))
  unfolding get_chapter put_images list_images
  got quiet quiet' there rises =
      let images : list_images r.id (put_images r.id req.images d') ≡ req.images =
        ap (order_by by_position) (images_of-with_images r.id req.images d'.images)
        ∙ order_by-Rises req.images rises in
      rw there (rw (quiet, quiet') (ap (λ x. ok (some (to_chapter x r))) images))

-- In valid tables, where the media is there, the id that is made is free, the images come in the
-- order of their positions, which are distinct, and no statement fails: putting a chapter answers
-- with a chapter of the request's data and images, and reading the id of that chapter gives the same
-- chapter, whether it was new or replaced one with the same URL.
pub get_chapter-upsert_chapter :
    (c c' : Call) (req : ChapterRequest) (d : Database)
    → IsValid d
    → has media_id req.media_id d.media ≡ true
    → has chapter_id c.ulid d.chapters ≡ false
    → Rises req.images
    → c.fault ≡ none
    → c.fault' ≡ none
    → c'.fault ≡ none
    → c'.fault' ≡ none
    → (r : ChapterRow) × ((upsert_chapter c req d).0 ≡ ok (to_chapter req.images r))
      × (get_chapter c' r.id (upsert_chapter c req d).1 ≡ ok (some (to_chapter req.images r)))
      × OfRequest req r
get_chapter-upsert_chapter c c' req d v there free rises q q' r r' =
    let (row, d', put, found, content) = put_chapter_lem c req d v.chapter_ids there free in
    let up = upserted c c' req row d d' q q' put (repeats-Rises req.images rises) in
    (row, ap (λ x. x.0) up, rw up (got c c' req row d d' r r' found rises), content)
