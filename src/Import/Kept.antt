-- ===== src/Import/Kept.antt =====
-- internal/jobs/chapter_import.go: what becomes of each unit.
use mathlib.Core.Path.{subst}
use shiori_server.Prelude.{
  ℕ, ◌≡◌, refl, ◌∙◌, String, Bool, true, ◌&&◌, ◌||◌, Option, none, some, List, [], ◌∷◌, ◌++◌, arith,
  ◌⊎◌, inl, inr, ◌==◌, str_eq, eq_refl, All, Bool-cases, Option-cases,
}
use shiori_server.Prelude.Rows.{amend, any, first, has}
use shiori_server.Prelude.Tables.{All-map}
use shiori_server.Storage.Interface.{Provider, Result, ok, err}
use shiori_server.Library.Types.{
  ChapterImage, ChapterRequest, Chapter, ChapterRow, Database, Call, unless,
}
use shiori_server.Library.Media.{media_id, chapter_id}
use shiori_server.Library.Chapters.{
  same_chapter, renewed, new_chapter, repeats, put_chapter, put_images, then_images, upsert_chapter,
}
use shiori_server.Import.Units.{ExtractedUnit}
use shiori_server.Import.Images.{save_images}
use shiori_server.Import.Chapters.{
  Page, unreachable, shown, Reason, failed, Warning, request_for, stored_unit, with_saved,
  import_unit, and_warnings, import_units,
}

-- The chapter of a media with a URL is there.
abbrev pub at_url : ℕ → String → ChapterRow → Bool
at_url media url c = c.media_id == media && str_eq c.source_url url

abbrev pub Stored : ℕ → String → Database → Type 0
Stored media url d = any (at_url media url) d.chapters ≡ true

abbrev pub Warned : String → List Warning → Type 0
Warned url ws = any (λ w. str_eq w.0 url) ws ≡ true

module _ {A : Type 0} (p : A → Bool) where
  any-amend :
      (test : A → Bool) (f : A → A) (xs : List A)
      → ((x : A) → p (f x) ≡ p x)
      → any p (amend test f xs) ≡ any p xs
  any-amend test f [] h = refl
  any-amend test f (x ∷ xs) h = elim (Bool-cases (test x)) [
    | inl e ↦ rw (e, h x, any-amend test f xs h) refl
    | inr e ↦ rw (e, any-amend test f xs h) refl
  ]

  any-append : (xs ys : List A) → any p (xs ++ ys) ≡ (any p xs || any p ys)
  any-append [] ys = refl
  any-append (x ∷ xs) ys = ground (arith, any-append xs ys)

  first-any : (xs : List A) (x : A) → first p xs ≡ some x → any p xs ≡ true
  first-any [] x h = cc h
  first-any (y ∷ ys) x h = elim (Bool-cases (p y)) [
    | inl e ↦ rw e refl
    | inr e ↦ rw e (first-any ys x (ground (arith, h, e)))
  ]

-- What the first statement of upsert_chapter leaves: what was stored, and the request's chapter.
abbrev PutKeeps : ChapterRequest → Database → Result ChapterRow × Database → Type 0
PutKeeps req d (err e, d') = Unit
PutKeeps req d (ok r, d') =
    ((m : ℕ) (u : String) → Stored m u d → Stored m u d') × Stored req.media_id req.source_url d'

PutKeeps-put_chapter :
    (c : Call) (req : ChapterRequest) (d : Database) → PutKeeps req d (put_chapter c req d)
unfolding put_chapter
PutKeeps-put_chapter c req d = elim (Bool-cases (has media_id req.media_id d.media)) [
  | inr absent ↦ rw absent tt
  | inl there ↦ elim (Option-cases (first (same_chapter req) d.chapters)) [
    | inr (r, found) ↦
        let kept = λ (m : ℕ) (u : String).
          any-amend (at_url m u) (same_chapter req) (renewed req) d.chapters (λ x. refl) in
        rw (there, found)
          (
            λ m u h. kept m u ∙ h,
            kept req.media_id req.source_url ∙ first-any (same_chapter req) d.chapters r found,
          )
    | inl new ↦ elim (Bool-cases (has chapter_id c.ulid d.chapters)) [
      | inl taken ↦ rw (there, new, taken) tt
      | inr free ↦
          let grown =
            λ (m : ℕ) (u : String). any-append (at_url m u) d.chapters (new_chapter c req ∷ []) in
          let here : at_url req.media_id req.source_url (new_chapter c req) ≡ true =
            ground (arith, eq_refl req.source_url) in
          rw (there, new, free)
            (
              λ m u h. ground (arith, grown m u, h),
              ground (arith, grown req.media_id req.source_url, here),
            )
    ]
  ]
]

-- What upsert_chapter leaves, as its answer says.
abbrev Keeps : ChapterRequest → Database → Result Chapter × Database → Type 0
Keeps req d (err e, d') = (m : ℕ) (u : String) → Stored m u d → Stored m u d'
Keeps req d (ok r, d') =
    ((m : ℕ) (u : String) → Stored m u d → Stored m u d') × Stored req.media_id req.source_url d'

unless-Keeps :
    (o : Option String) (req : ChapterRequest) (d : Database) (r : Result Chapter × Database)
    → Keeps req d r
    → Keeps req d (unless o d r)
unless-Keeps none req d r k = k
unless-Keeps (some e) req d r k = λ m u h. h

then_images-Keeps :
    (c : Call) (req : ChapterRequest) (d : Database) (r : Result ChapterRow × Database)
    → PutKeeps req d r
    → Keeps req d (then_images c req d r)
unfolding put_images
then_images-Keeps c req d (err e, d') k = λ m u h. h
then_images-Keeps c req d (ok r, d') k = elim (Bool-cases (repeats req.images)) [
  | inl twice ↦ rw twice (λ m u h. h)
  | inr once ↦ rw once (unless-Keeps c.fault' req d _ k)
]

Keeps-upsert_chapter :
    (c : Call) (req : ChapterRequest) (d : Database) → Keeps req d (upsert_chapter c req d)
unfolding upsert_chapter
Keeps-upsert_chapter c req d =
    unless-Keeps c.fault req d _ (then_images-Keeps c req d _ (PutKeeps-put_chapter c req d))

Warned-append : (url : String) (ws vs : List Warning) → Warned url vs → Warned url (ws ++ vs)
Warned-append url ws vs h = ground (arith, any-append (λ (w : Warning). str_eq w.0 url) ws vs, h)

Warned-before : (url : String) (ws vs : List Warning) → Warned url ws → Warned url (ws ++ vs)
Warned-before url ws vs h = ground (arith, any-append (λ (w : Warning). str_eq w.0 url) ws vs, h)

Warned-last : (url : String) (ws : List Warning) (r : Reason) → Warned url (ws ++ (url, r) ∷ [])
Warned-last url ws r =
    let here : str_eq url url ≡ true = eq_refl url in
    Warned-append url ws ((url, r) ∷ []) (ground (arith, here))

module _ {S : Type 0} (p : Provider S) (anime : Bool) (media : ℕ)
    (folder : ExtractedUnit → List ℕ) where
  -- What was stored stays, and the unit is stored or warned of.
  abbrev Outcome : String → Database → List Warning × Database × S → Type 0
  Outcome url d q =
      ((m : ℕ) (u : String) → Stored m u d → Stored m u q.1)
      × (Warned url q.0 ⊎ Stored media url q.1)

  stored_unit-Outcome :
      (req : ChapterRequest) (ws : List Warning) (d : Database) (r : Result Chapter × Database)
      (s : S)
      → req.media_id ≡ media
      → Keeps req d r
      → Outcome req.source_url d (stored_unit req.source_url ws r s)
  stored_unit-Outcome req ws d (ok c, d') s e k =
      (k.0, inr (subst (λ x. Stored x req.source_url d') e k.1))
  stored_unit-Outcome req ws d (err x, d') s e k =
      (k, inl (Warned-last req.source_url ws (failed x)))

  import_unit-Outcome :
      (c : Call) (page : Page) (u : ExtractedUnit) (d : Database) (s : S)
      → Outcome u.url d (import_unit p anime media folder c page u d s)
  unfolding import_unit
  import_unit-Outcome c (unreachable e) u d s = (λ m x h. h, inl (Warned-last u.url [] (failed e)))
  import_unit-Outcome c (shown video sources) u d s = elim (Bool-cases anime) [
    | inl film ↦
        let req = request_for media u video [] in
        rw film (
          stored_unit-Outcome req _ d (upsert_chapter c req d) s refl
            (Keeps-upsert_chapter c req d))
    | inr pages ↦ rw pages (images (save_images p (folder u) 0 sources s))
  ]
    where
      images :
          (r : (List ChapterImage × Option String) × S)
          → Outcome u.url d (with_saved p anime media folder c u r d)
      images ((xs, last), t) =
          let req = request_for media u "" xs in
          stored_unit-Outcome req _ d (upsert_chapter c req d) t refl (Keeps-upsert_chapter c req d)

  -- Every unit's URL is warned of, or its chapter is stored under the media.
  abbrev pub Covered : List ExtractedUnit → List Warning × Database × S → Type 0
  Covered us q = All (λ u. Warned u.url q.0 ⊎ Stored media u.url q.1) us

  Covered-later :
      (us : List ExtractedUnit) (ws : List Warning) (q : List Warning × Database × S)
      → Covered us q
      → Covered us (and_warnings p anime media folder ws q)
  Covered-later us ws (vs, d, s) h =
      All-map (λ u. Warned u.url vs ⊎ Stored media u.url d)
        (λ u. Warned u.url (ws ++ vs) ⊎ Stored media u.url d) us
        (λ u r. elim r [ inl w ↦ inl (Warned-append u.url ws vs w) | inr k ↦ inr k ]) h

  import_units-kept :
      (calls : String → Call) (pages : String → Page) (us : List ExtractedUnit) (d : Database)
      (s : S)
      → (m : ℕ) (x : String) → Stored m x d
      → Stored m x (import_units p anime media folder calls pages us d s).1
  unfolding import_units
  import_units-kept calls pages [] d s m x h = h
  import_units-kept calls pages (u ∷ us) d s m x h =
      let r = import_unit p anime media folder (calls u.url) (pages u.url) u d s in
      let o = import_unit-Outcome (calls u.url) (pages u.url) u d s in
      import_units-kept calls pages us r.1 r.2 m x (o.0 m x h)

  covers :
      (calls : String → Call) (pages : String → Page) (us : List ExtractedUnit) (d : Database)
      (s : S)
      → Covered us (import_units p anime media folder calls pages us d s)
  unfolding import_units
  covers calls pages [] d s = tt
  covers calls pages (u ∷ us) d s =
      let r = import_unit p anime media folder (calls u.url) (pages u.url) u d s in
      let rest = import_units p anime media folder calls pages us r.1 r.2 in
      let o = import_unit-Outcome (calls u.url) (pages u.url) u d s in
      (
        elim o.1 [
          | inl w ↦ inl (Warned-before u.url r.0 rest.0 w)
          | inr k ↦ inr (import_units-kept calls pages us r.1 r.2 media u.url k)
        ],
        Covered-later us r.0 rest (covers calls pages us r.1 r.2),
      )

  -- An import ends with each unit warned of under its URL, or stored as a chapter of the media with
  -- that URL, whatever fails of the browser, the storage and the database; and every chapter that
  -- was stored before is still there.
  pub Covered-import_units :
      (calls : String → Call) (pages : String → Page) (us : List ExtractedUnit) (d : Database)
      (s : S)
      → let q = import_units p anime media folder calls pages us d s in
        Covered us q × ((m : ℕ) (x : String) → Stored m x d → Stored m x q.1)
  Covered-import_units calls pages us d s =
      (covers calls pages us d s, import_units-kept calls pages us d s)
