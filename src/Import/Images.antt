-- ===== src/Import/Images.antt =====
-- internal/jobs/chapter_import.go: saveChapterImages. What a source gives (decodeDataImage or
-- FetchAsset) is given: the bytes, the type, whether that is an image and the file's extension.
use shiori_server.Prelude.{
  ℕ, zero, suc, ◌+◌, ◌-◌, ◌/◌, ◌%◌, ◌<◌, ◌≤◌, ◌≡◌, refl, String, Bool, Option, none, some, List, [],
  ◌∷◌, ◌++◌, arith, inl, inr, ltb, if◌then◌else◌, length, All, Bool-cases,
}
use shiori_server.Storage.Interface.{Provider, Result, ok, err}
use shiori_server.Library.Types.{ChapterImage}
use shiori_server.Library.RoundTrip.{Rises}

pub record Asset : Type 0 where
  pub content : List ℕ
  pub content_type : String
  pub is_image : Bool
  pub extension : List ℕ

-- The decimal digits, and %04d; the number itself is fuel enough.
abbrev pub digits : ℕ → ℕ → List ℕ
digits zero n = (48 + n % 10) ∷ []
digits (suc f) n =
    let higher = digits f (n / 10) in
    if ltb n 10 then (48 + n) ∷ [] else higher ++ (48 + n % 10) ∷ []

abbrev zeros : ℕ → List ℕ
zeros zero = []
zeros (suc n) = b'0' ∷ zeros n

unfoldable pub four_digits : ℕ → List ℕ
four_digits n = let s = digits n n in zeros (4 - length s) ++ s

module _ {S : Type 0} (p : Provider S) (folder : List ℕ) where
  -- "media/%s/chapters/%s/%04d%s", whose beginning is `folder`.
  unfoldable pub image_key : ℕ → List ℕ → List ℕ
  unfolding four_digits
  image_key n ext = folder ++ four_digits n ++ ext

  abbrev pub last_error : Option String → String → Option String
  last_error none e = some e
  last_error (some f) e = some f

  abbrev pub Saved : Type 0
  Saved = (List ChapterImage × Option String) × S

  abbrev pub failed_with : String → Saved → Saved
  failed_with e ((images, last), s) = ((images, last_error last e), s)

  abbrev pub with_image : ChapterImage → Saved → Saved
  with_image x ((images, last), s) = ((x ∷ images, last), s)

  -- What follows a Put.
  abbrev pub after_put : (ℕ → S → Saved) → ℕ → ChapterImage → Option String × S → Saved
  after_put next n x (none, s) = with_image x (next (suc n) s)
  after_put next n x (some e, s) = failed_with e (next n s)

  -- One source, where `n` images are saved before it.
  abbrev pub save_one : (ℕ → S → Saved) → ℕ → Result Asset → S → Saved
  save_one next n (err e) s = failed_with e (next n s)
  save_one next n (ok a) s =
      let key = image_key (suc n) a.extension in
      let done =
        after_put next n
          (record { position = suc n; storage_key = key; content_type = a.content_type })
          (p.put key a.content s) in
      let skipped = next n s in if a.is_image then done else skipped

  unfoldable pub save_images : ℕ → List (Result Asset) → S → Saved
  unfolding image_key
  save_images n [] s = (([], none), s)
  save_images n (a ∷ rest) s = save_one (λ m t. save_images m rest t) n a s

  -- Positions one after the other from `suc n`.
  abbrev pub Numbered : ℕ → List ChapterImage → Type 0
  Numbered n [] = Unit
  Numbered n (x ∷ xs) = (x.position ≡ suc n) × Numbered (suc n) xs

  with_image-Numbered :
      (n : ℕ) (x : ChapterImage) (r : Saved)
      → x.position ≡ suc n
      → Numbered (suc n) r.0.0
      → Numbered n (with_image x r).0.0
  with_image-Numbered n x ((images, last), s) h k = (h, k)

  failed_with-Numbered :
      (n : ℕ) (e : String) (r : Saved) → Numbered n r.0.0 → Numbered n (failed_with e r).0.0
  failed_with-Numbered n e ((images, last), s) h = h

  after_put-Numbered :
      (next : ℕ → S → Saved) (n : ℕ) (x : ChapterImage) (r : Option String × S)
      → ((m : ℕ) (s : S) → Numbered m (next m s).0.0)
      → x.position ≡ suc n
      → Numbered n (after_put next n x r).0.0
  after_put-Numbered next n x (none, s) h k =
      with_image-Numbered n x (next (suc n) s) k (h (suc n) s)
  after_put-Numbered next n x (some e, s) h k = failed_with-Numbered n e (next n s) (h n s)

  save_one-Numbered :
      (next : ℕ → S → Saved) (n : ℕ) (a : Result Asset) (s : S)
      → ((m : ℕ) (t : S) → Numbered m (next m t).0.0)
      → Numbered n (save_one next n a s).0.0
  save_one-Numbered next n (err e) s h = failed_with-Numbered n e (next n s) (h n s)
  save_one-Numbered next n (ok a) s h = elim (Bool-cases a.is_image) [
    | inl yes' ↦
        rw yes'
          (after_put-Numbered next n _ (p.put (image_key (suc n) a.extension) a.content s) h refl)
    | inr no' ↦ rw no' (h n s)
  ]

  pub save_images-Numbered :
      (n : ℕ) (sources : List (Result Asset)) (s : S) → Numbered n (save_images n sources s).0.0
  unfolding save_images
  save_images-Numbered n [] s = tt
  save_images-Numbered n (a ∷ rest) s =
      save_one-Numbered (λ m t. save_images m rest t) n a s (λ m t. save_images-Numbered m rest t)

  above : (k n : ℕ) (xs : List ChapterImage) → k ≤ n → Numbered n xs → All (λ y. k < y.position) xs
  above k n [] l h = tt
  above k n (x ∷ xs) l h = (omega (arith, h.0, l), above k (suc n) xs (omega (arith, l)) h.1)

  pub Rises-Numbered : (n : ℕ) (xs : List ChapterImage) → Numbered n xs → Rises xs
  Rises-Numbered n [] h = tt
  Rises-Numbered n (x ∷ xs) h =
      (above x.position (suc n) xs (omega (arith, h.0)) h.1, Rises-Numbered (suc n) xs h.1)
