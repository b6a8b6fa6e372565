-- ===== src/Routes/Linked.antt =====
-- internal/jobs/unit_urls.go: the URLs of the chapters in the enriched list.
use shiori_server.Prelude.{
  ℕ, ◌≡◌, refl, Bool, true, false, ◌&&◌, ◌||◌, ◌⊎◌, List, [], ◌∷◌, ◌++◌, map, arith, inl, inr, All,
  Bool-cases,
}
use shiori_server.Chunker.Text.{trim_space, trim_after, reverse_onto, same}
use shiori_server.Chunker.Markdown.{is_empty, one_of}
use shiori_server.Extract.Paging.{same_eq}
use shiori_server.Routes.Enrich.{
  Discovered, Entry, object, no_object, normalize, url_of, number_in, fill, seen_in, missing,
  enrich,
}
use shiori_server.Routes.Counted.{is_discovered, number_in-full}

-- The entry is a chapter with this normalized number and without a URL.
abbrev pub has_no_url : List ℕ → Entry → Bool
has_no_url n no_object = false
has_no_url n (object number title url) = same (number_in number) n && is_empty (trim_space url)

-- A URL that is more than white space.
abbrev pub Full : List ℕ → Type 0
Full url = is_empty (trim_space url) ≡ false

Full-not_empty : (url : List ℕ) → Full url → is_empty url ≡ false
unfolding trim_space trim_after reverse_onto
Full-not_empty [] h = h
Full-not_empty (c ∷ cs) h = refl

url_of-Full :
    (found n : List ℕ) (ds : List Discovered)
    → All (λ d. Full d.url) ds
    → Full found ⊎ (is_discovered n ds ≡ true)
    → Full (url_of found n ds)
unfolding url_of
url_of-Full found n [] h w = elim w [ inl f ↦ f | inr e ↦ cc e ]
url_of-Full found n (d ∷ ds) h w = elim (Bool-cases (same (normalize d.number) n)) [
  | inl e ↦ rw e (url_of-Full d.url n ds h.1 (inl h.0))
  | inr e ↦
      rw e
        (url_of-Full found n ds h.1 (elim w [ inl f ↦ inl f | inr k ↦ inr (ground (arith, e, k)) ]))
]

fill_links :
    (ds : List Discovered) (n : List ℕ) (e : Entry)
    → All (λ d. Full d.url) ds
    → is_discovered n ds ≡ true
    → has_no_url n (fill ds e) ≡ false
unfolding fill
fill_links ds n no_object h k = refl
fill_links ds n (object number title url) h k = elim (Bool-cases (same (number_in number) n)) [
  | inl e ↦
      let eq = same_eq (number_in number) n e in
      let found : Full (url_of [] (number_in number) ds) =
        url_of-Full [] (number_in number) ds h (inr (rw eq k)) in
      ground (
        arith,
        number_in-full number,
        found,
        Full-not_empty (url_of [] (number_in number) ds) found,
      )
  | inr e ↦ ground (arith, e)
]

map-fill_links :
    (ds : List Discovered) (n : List ℕ) (es : List Entry)
    → All (λ d. Full d.url) ds
    → is_discovered n ds ≡ true
    → All (λ e. has_no_url n e ≡ false) (map (fill ds) es)
map-fill_links ds n [] h k = tt
map-fill_links ds n (e ∷ es) h k = (fill_links ds n e h k, map-fill_links ds n es h k)

missing_links :
    (seen : List (List ℕ)) (n : List ℕ) (ds : List Discovered)
    → All (λ d. Full d.url) ds
    → All (λ e. has_no_url n e ≡ false) (missing seen ds)
unfolding missing
missing_links seen n [] h = tt
missing_links seen n (d ∷ ds) h =
    elim (Bool-cases (is_empty (normalize d.number) || one_of (normalize d.number) seen)) [
      | inl e ↦ rw e (missing_links seen n ds h.1)
      | inr e ↦ rw e (ground (arith, h.0), missing_links (normalize d.number ∷ seen) n ds h.1)
    ]

All-append : (P : Entry → Type 0) (xs ys : List Entry) → All P xs → All P ys → All P (xs ++ ys)
All-append P [] ys h k = k
All-append P (x ∷ xs) ys h k = (h.0, All-append P xs ys h.1 k)

-- No chapter is left without its URL: where the number is among the discovered units, whose URLs
-- are not blank, every entry of the enriched list with that number has a URL.
pub enrich_links :
    (items : List Entry) (ds : List Discovered) (n : List ℕ)
    → All (λ d. Full d.url) ds
    → is_discovered n ds ≡ true
    → All (λ e. has_no_url n e ≡ false) (enrich items ds)
unfolding enrich
enrich_links items [] n h k = cc k
enrich_links items (d ∷ ds) n h k =
    All-append (λ e. has_no_url n e ≡ false) (map (fill (d ∷ ds)) items)
      (missing (seen_in items) (d ∷ ds)) (map-fill_links (d ∷ ds) n items h k)
      (missing_links (seen_in items) n (d ∷ ds) h)

-- An entry that has a URL already is left as it is.
pub fill_keeps :
    (ds : List Discovered) (number title url : List ℕ)
    → Full url
    → fill ds (object number title url) ≡ object number title url
unfolding fill
fill_keeps ds number title url h = ground (arith, h)
