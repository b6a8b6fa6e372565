-- ===== src/Import/Units.antt =====
-- internal/jobs/chapter_import.go: readExtractedUnits. net/url is given: `absolute` is the URL that
-- an item's text is, resolved against the page's, where it parses and is http or https.
use shiori_server.Prelude.{
  String, Bool, true, false, ◌||◌, ◌≡◌, refl, Option, none, some, List, [], ◌∷◌, if◌then◌else◌,
  str_eq,
}

pub record ExtractedUnit : Type 0 where
  pub number : String
  pub title : String
  pub url : String

abbrev pub seen_before : String → List String → Bool
seen_before s [] = false
seen_before s (t ∷ ts) = str_eq t s || seen_before s ts

either :
    (b : Bool) (P : List ExtractedUnit → Type 0) (xs ys : List ExtractedUnit)
    → P xs
    → (b ≡ false → P ys)
    → P (if b then xs else ys)
either true P xs ys h k = h
either false P xs ys h k = k refl

module _ (absolute : String → Option String) where
  -- An item that is not an object is left out of the list already; `url` is its scalar text.
  abbrev pub located : ExtractedUnit → Option String
  located u = if str_eq u.url "" then none else absolute u.url

  abbrev pub next_unit :
      Option String
      → ExtractedUnit
      → (String → List ExtractedUnit)
      → List String
      → List ExtractedUnit
      → List ExtractedUnit
  next_unit none u next seen rest = rest
  next_unit (some url) u next seen rest =
      if seen_before url seen then rest else record u { url = url } ∷ next url

  -- `seen` is the map of the URLs before.
  unfoldable pub read_units : List String → List ExtractedUnit → List ExtractedUnit
  read_units seen [] = []
  read_units seen (u ∷ us) =
      next_unit (located u) u (λ url. read_units (url ∷ seen) us) seen (read_units seen us)

  -- No URL twice, and none of `seen`.
  abbrev pub Apart : List String → List ExtractedUnit → Type 0
  Apart seen [] = Unit
  Apart seen (u ∷ us) = (seen_before u.url seen ≡ false) × Apart (u.url ∷ seen) us

  pub read_units-Apart :
      (seen : List String) (us : List ExtractedUnit) → Apart seen (read_units seen us)
  unfolding read_units
  read_units-Apart seen [] = tt
  read_units-Apart seen (u ∷ us) =
      go (located u) (read_units-Apart seen us) (λ url. read_units-Apart (url ∷ seen) us)
    where
      go :
          (o : Option String)
          → Apart seen (read_units seen us)
          → ((url : String) → Apart (url ∷ seen) (read_units (url ∷ seen) us))
          → Apart seen (next_unit o u (λ url. read_units (url ∷ seen) us) seen (read_units seen us))
      go none h k = h
      go (some url) h k = either (seen_before url seen) (Apart seen) _ _ h (λ new. (new, k url))
