-- ===== src/Import/Recorded.antt =====
-- internal/jobs/chapter_import.go: which images saveChapterImages records, stated by what the storage
-- answered to each Put.
use shiori_server.Prelude.{
  ℕ, suc, ◌≡◌, refl, String, Bool, true, false, Option, none, some, List, [], ◌∷◌, if◌then◌else◌,
}
use shiori_server.Storage.Interface.{Provider, Result, ok, err}
use shiori_server.Library.Types.{ChapterImage}
use shiori_server.Import.Images.{
  Asset, image_key, Saved, failed_with, with_image, after_put, save_one, save_images,
}

module _ {S : Type 0} (p : Provider S) (folder : List ℕ) where
  abbrev pub key_for : ℕ → Asset → List ℕ
  key_for n a = image_key p folder (suc n) a.extension

  -- From `n` images and a storage, the sources add these images and leave that storage: an image is
  -- recorded, with the next position and the key that its bytes were put under, if and only if it was
  -- fetched, is an image and the storage took it.
  pub data Recorded : ℕ → List (Result Asset) → S → List ChapterImage → S → Type 0 where
    at_end : (n : ℕ) (s : S) → Recorded n [] s [] s
    not_fetched :
        (n : ℕ) (e : String) (rest : List (Result Asset)) (s t : S) (xs : List ChapterImage)
        → Recorded n rest s xs t
        → Recorded n (err e ∷ rest) s xs t
    not_image :
        (n : ℕ) (a : Asset) (rest : List (Result Asset)) (s t : S) (xs : List ChapterImage)
        → a.is_image ≡ false
        → Recorded n rest s xs t
        → Recorded n (ok a ∷ rest) s xs t
    not_taken :
        (n : ℕ) (a : Asset) (rest : List (Result Asset)) (s s' t : S) (xs : List ChapterImage)
        (e : String)
        → a.is_image ≡ true
        → p.put (key_for n a) a.content s ≡ (some e, s')
        → Recorded n rest s' xs t
        → Recorded n (ok a ∷ rest) s xs t
    taken :
        (n : ℕ) (a : Asset) (rest : List (Result Asset)) (s s' t : S) (xs : List ChapterImage)
        → a.is_image ≡ true
        → p.put (key_for n a) a.content s ≡ (none, s')
        → Recorded (suc n) rest s' xs t
        → Recorded n
            (ok a ∷ rest)
            s
            (record { position = suc n; storage_key = key_for n a; content_type = a.content_type }
              ∷ xs)
            t

  failed_with-Recorded :
      (n : ℕ) (sources : List (Result Asset)) (e : String) (s : S) (r : Saved p folder)
      → Recorded n sources s r.0.0 r.1
      → Recorded n sources s (failed_with p folder e r).0.0 (failed_with p folder e r).1
  failed_with-Recorded n sources e s ((images, last), t) h = h

  with_image-Recorded :
      (n : ℕ) (a : Asset) (rest : List (Result Asset)) (s s' : S) (r : Saved p folder)
      → a.is_image ≡ true
      → p.put (key_for n a) a.content s ≡ (none, s')
      → Recorded (suc n) rest s' r.0.0 r.1
      → let x : ChapterImage = record {
        position = suc n;
        storage_key = key_for n a;
        content_type = a.content_type;
      } in
        Recorded n (ok a ∷ rest) s (with_image p folder x r).0.0 (with_image p folder x r).1
  with_image-Recorded n a rest s s' ((images, last), t) yes' put h =
      taken n a rest s s' t images yes' put h

  either_one :
      (b : Bool) (n : ℕ) (sources : List (Result Asset)) (s : S) (q r : Saved p folder)
      → (b ≡ true → Recorded n sources s q.0.0 q.1)
      → (b ≡ false → Recorded n sources s r.0.0 r.1)
      → Recorded n sources s (if b then q else r).0.0 (if b then q else r).1
  either_one true n sources s q r h k = h refl
  either_one false n sources s q r h k = k refl

  module _ (rest : List (Result Asset)) (next : ℕ → S → Saved p folder) where
    after_put-Recorded :
        (n : ℕ) (a : Asset) (s : S) (q : Option String × S)
        → ((m : ℕ) (t : S) → Recorded m rest t (next m t).0.0 (next m t).1)
        → a.is_image ≡ true
        → p.put (key_for n a) a.content s ≡ q
        → let x : ChapterImage = record {
          position = suc n;
          storage_key = key_for n a;
          content_type = a.content_type;
        } in
          Recorded n
            (ok a ∷ rest)
            s
            (after_put p folder next n x q).0.0
            (after_put p folder next n x q).1
    after_put-Recorded n a s (none, s') h yes' put =
        with_image-Recorded n a rest s s' (next (suc n) s') yes' put (h (suc n) s')
    after_put-Recorded n a s (some e, s') h yes' put =
        failed_with-Recorded n (ok a ∷ rest) e s (next n s')
          (not_taken n a rest s s' (next n s').1 (next n s').0.0 e yes' put (h n s'))

    save_one-Recorded :
        (n : ℕ) (a : Result Asset) (s : S)
        → ((m : ℕ) (t : S) → Recorded m rest t (next m t).0.0 (next m t).1)
        → Recorded n
            (a ∷ rest)
            s
            (save_one p folder next n a s).0.0
            (save_one p folder next n a s).1
    save_one-Recorded n (err e) s h =
        failed_with-Recorded n (err e ∷ rest) e s (next n s)
          (not_fetched n e rest s (next n s).1 (next n s).0.0 (h n s))
    save_one-Recorded n (ok a) s h =
        either_one a.is_image n (ok a ∷ rest) s _ (next n s)
          (λ e. after_put-Recorded n a s (p.put (key_for n a) a.content s) h e refl)
          (λ e. not_image n a rest s (next n s).1 (next n s).0.0 e (h n s))

  pub save_images-Recorded :
      (n : ℕ) (sources : List (Result Asset)) (s : S)
      → Recorded n sources s
          (save_images p folder n sources s).0.0
          (save_images p folder n sources s).1
  unfolding save_images
  save_images-Recorded n [] s = at_end n s
  save_images-Recorded n (a ∷ rest) s =
      save_one-Recorded rest (λ m t. save_images p folder m rest t) n a s
        (λ m t. save_images-Recorded m rest t)
