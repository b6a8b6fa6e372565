-- ===== src/Library/Integrity/Changes.antt =====
-- internal/library/sqlite: each statement that writes, as a change of valid tables.
use shiori_server.Prelude.{
  ◌≡◌, refl, sym, ◌∙◌, inl, inr, String, true, Option, none, some, [], ◌∷◌, ◌++◌, eq_iff,
  Bool-cases, Option-cases,
}
use shiori_server.Prelude.Rows.{amend, first, has}
use shiori_server.Prelude.Tables.{
  any-false, first-none, Keyed-append, Keyed-amend, has-amend, has-grown, Unique-append,
  Unique-amend,
}
use shiori_server.Library.Types.{MediaRequest, Media, Database, Call, Result, unless}
use shiori_server.Library.Media.{media_id, has_url, overwritten, new_media, create_media}
use shiori_server.Library.Integrity.Tables.{url, same_url, IsValid, media_changed}

overwritten_url :
    (c : Call) (req : MediaRequest) (m : Media)
    → has_url req.source_url m ≡ true
    → url (overwritten c req m) ≡ url m
overwritten_url c req m h = sym ((eq_iff m.content.source_url req.source_url).0 h)

pub unless-IsValid :
    {A : Type 0} (o : Option String) (d : Database) (r : Result A × Database)
    → IsValid d
    → IsValid r.1
    → IsValid (unless o d r).1
unless-IsValid none d r v w = w
unless-IsValid (some e) d r v w = v

module _ (d : Database) (v : IsValid d) where
  pub IsValid-create_media : (c : Call) (req : MediaRequest) → IsValid (create_media c req d).1
  unfolding create_media
  IsValid-create_media c req =
      unless-IsValid c.fault d _ v (elim (Option-cases (first (has_url req.source_url) d.media)) [
        | inr (m, found) ↦ rw found (
            media_changed d v (amend (has_url req.source_url) (overwritten c req) d.media)
              (Keyed-amend media_id (has_url req.source_url) (overwritten c req) (λ m e. refl)
                d.media v.media_ids)
              (Unique-amend url same_url (has_url req.source_url) (overwritten c req) d.media
                (overwritten_url c req) v.media_urls)
              (λ k r.
                has-amend media_id (has_url req.source_url) (overwritten c req) (λ m e. refl) k
                  d.media
                ∙ r))
        | inl new ↦ elim (Bool-cases (has media_id c.ulid d.media)) [
          | inl taken ↦ rw (new, taken) v
          | inr free ↦
              let apart =
                any-false (has_url req.source_url) d.media
                  (first-none (has_url req.source_url) d.media new) in
              rw (new, free)
                (media_changed d v (d.media ++ new_media c req ∷ [])
                  (Keyed-append media_id (new_media c req) d.media free v.media_ids)
                  (Unique-append url same_url d.media (new_media c req ∷ []) (apart, tt)
                    v.media_urls (tt, tt))
                  (λ k r. has-grown media_id k d.media (new_media c req ∷ []) r))
        ]
      ])
