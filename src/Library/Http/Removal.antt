-- ===== src/Library/Http/Removal.antt =====
-- internal/library/http.go: what DeleteMedia leaves in the database and in the file storage.
use shiori_server.Prelude.{
  ℕ, ◌≡◌, refl, ◌∙◌, String, Bool, true, false, ◌||◌, Option, none, some, List, [], ◌∷◌, arith, ◌⊎◌,
  inl, inr, if◌then◌else◌, Bool-cases,
}
use shiori_server.Prelude.Rows.{any, has}
use shiori_server.Library.Types.{Database, Call}
use shiori_server.Library.Media.{media_id, drop_media, storage_keys}
use shiori_server.Library.Deletion.{deleted, Withdrawn, drop_media-Withdrawn}
use shiori_server.Storage.Interface.{Provider, Laws}
use shiori_server.Library.Http.Media.{
  empty, problem, then_remove, remove_files, removed, handle_delete_media,
}

module _ {S : Type 0} (p : Provider S) (laws : Laws p) where
  abbrev pub among : List (List ℕ) → List ℕ → Bool
  among keys j = any (λ k. p.same k j) keys

  remove_files-none :
      (keys : List (List ℕ)) (s : S) (j : List ℕ)
      → (remove_files (some p) keys s).0 ≡ none
      → p.content j (remove_files (some p) keys s).1
        ≡ (if among keys j then none else p.content j s)
  remove_files-none [] s j h = refl
  remove_files-none (k ∷ ks) s j h =
      go (p.delete k s) (laws.delete_done k j s) (λ t. remove_files-none ks t j) h
    where
      go :
          (r : Option String × S)
          → (r.0 ≡ none → p.content j r.1 ≡ (if p.same k j then none else p.content j s))
          → ((t : S)
              → (remove_files (some p) ks t).0 ≡ none
              → p.content j (remove_files (some p) ks t).1
                ≡ (if among ks j then none else p.content j t))
          → (then_remove (λ t. remove_files (some p) ks t) r).0 ≡ none
          → p.content j (then_remove (λ t. remove_files (some p) ks t) r).1
            ≡ (if p.same k j || among ks j then none else p.content j s)
      go (none, t) gone rest h = ground (arith, rest t h, gone refl)
      go (some e, t) gone rest h = cc h

  remove_files-other :
      (keys : List (List ℕ)) (s : S) (j : List ℕ)
      → among keys j ≡ false
      → p.content j (remove_files (some p) keys s).1 ≡ p.content j s
  remove_files-other [] s j h = refl
  remove_files-other (k ∷ ks) s j h =
      let apart : p.same k j ≡ false = ground (arith, h) in
      go (p.delete k s) (λ e. laws.delete_done k j s e ∙ rw apart refl) (laws.delete_failed k j s)
        (λ t. remove_files-other ks t j (ground (arith, h)))
    where
      go :
          (r : Option String × S)
          → (r.0 ≡ none → p.content j r.1 ≡ p.content j s)
          → ((e : String) → r.0 ≡ some e → p.content j r.1 ≡ p.content j s)
          → ((t : S) → p.content j (remove_files (some p) ks t).1 ≡ p.content j t)
          → p.content j (then_remove (λ t. remove_files (some p) ks t) r).1 ≡ p.content j s
      go (none, t) gone stays rest = rest t ∙ gone refl
      go (some e, t) gone stays rest = stays e refl

  removed_lem :
      (d : Database) (r : Option String × S)
      → ((r.0 ≡ none) × (removed r d ≡ (empty, d, r.1)))
        ⊎ (removed r d ≡ (problem 500 "Storage Error", d, r.1))
  removed_lem d (none, s) = inl (refl, refl)
  removed_lem d (some e, s) = inr refl

  -- DeleteMedia, where the database fails nowhere and the storage keeps the promises of its
  -- interface. The media is gone and no other has changed, no chapter of it is left, and a chapter has
  -- no images if it was of the media, and the images that it had if not; this concerns some storage
  -- keys, those of the images that vanished, each as often as it did. Without the media the answer is
  -- 404 and no file changes. Otherwise the answer is 204, or 500 for the storage; with 204 the files
  -- under those keys are gone and every other file is as before; with 500 the files under other keys
  -- are as before.
  pub handle_delete_media_lem :
      (c : Call) (i : ℕ) (d : Database) (s : S)
      → c.fault ≡ none
      → c.fault' ≡ none
      → let r = handle_delete_media (some p) c i d s in
        (keys : List (List ℕ)) × Withdrawn i d keys r.1
        × (((has media_id i d.media ≡ false) × (r.0 ≡ problem 404 "Not Found") × (r.2 ≡ s))
            ⊎ ((has media_id i d.media ≡ true)
                × (((r.0 ≡ empty)
                      × ((j : List ℕ)
                          → p.content j r.2 ≡ (if among keys j then none else p.content j s)))
                    ⊎ ((r.0 ≡ problem 500 "Storage Error")
                        × ((j : List ℕ)
                            → among keys j ≡ false
                            → p.content j r.2 ≡ p.content j s)))))
  unfolding handle_delete_media
  handle_delete_media_lem c i d s quiet quiet' = elim (Bool-cases (has media_id i d.media)) [
    | inr absent ↦
        rw (deleted c i d quiet quiet', absent)
          (storage_keys i d, drop_media-Withdrawn i d, inl (refl, refl, refl))
    | inl there ↦
        let keys = storage_keys i d in
        let d' = drop_media i d in
        elim (removed_lem d' (remove_files (some p) keys s)) [
          | inl (clean, e) ↦
              rw (deleted c i d quiet quiet', there)
                (rw e (
                  keys,
                  drop_media-Withdrawn i d,
                  inr (refl, inl (refl, λ j. remove_files-none keys s j clean)),
                ))
          | inr e ↦
              rw (deleted c i d quiet quiet', there)
                (rw e (
                  keys,
                  drop_media-Withdrawn i d,
                  inr (refl, inr (refl, λ j other. remove_files-other keys s j other)),
                ))
        ]
  ]
