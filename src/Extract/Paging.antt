-- ===== src/Extract/Paging.antt =====
-- internal/jobs/extract.go: which page the loop of NewExtractHandler takes next, and why it ends. A
-- URL is the list of its bytes. What a page says is given: its `next_page_url`, and whether that is
-- the URL of one of its chapters (extractedUnitContainsURL). A page that
-- cannot be read ends the job, which is left out here.
use shiori_server.Prelude.{
  ℕ, zero, suc, ◌≤◌, ◌<◌, ◌≡◌, refl, Bool, true, false, ◌||◌, Option, none, some, List, [], ◌∷◌,
  ◌++◌, arith, inl, inr, ◌==◌, if◌then◌else◌, length, Bool-cases, Option-cases,
}
use shiori_server.Chunker.Text.{has_prefix, same}
use shiori_server.Chunker.Markdown.{is_empty, one_of}

-- strings.Split(s, "/"): the first part and the further ones.
unfoldable pub split_slash : List ℕ → List ℕ × List (List ℕ)
split_slash [] = ([], [])
split_slash (c ∷ cs) =
    let (part, parts) = split_slash cs in
    if c == b'/' then ([], part ∷ parts) else (c ∷ part, parts)

-- A link that starts with a slash goes to the host of the current URL.
abbrev on_host : List ℕ × List (List ℕ) → List ℕ → List ℕ
on_host (scheme, empty ∷ host ∷ rest) link = scheme ++ b'/' ∷ b'/' ∷ host ++ link
on_host parts link = link

unfoldable pub resolve_link : List ℕ → List ℕ → Option (List ℕ)
unfolding has_prefix split_slash
resolve_link current link =
    if has_prefix link (b'h' ∷ b't' ∷ b't' ∷ b'p' ∷ [])
    then some link
    else if has_prefix link (b'/' ∷ [])
    then some (on_host (split_slash current) link)
    else none

-- The next page, none where the loop breaks.
unfoldable pub next_page : List ℕ → Option (List ℕ) → Bool → List (List ℕ) → Option (List ℕ)
unfolding resolve_link same
next_page current none is_unit visited = none
next_page current (some link) is_unit visited =
    if is_empty link || same link current || is_unit
    then none
    else elim (resolve_link current link) [
      | none ↦ none
      | some url ↦ if one_of url visited then none else some url
    ]

-- The pages that the loop opens, in order, and whether it came to its end. `site` is what the page
-- at a URL says.
unfoldable pub crawl :
    ℕ → (List ℕ → Option (List ℕ) × Bool) → List ℕ → List (List ℕ) → List (List ℕ) × Bool
unfolding next_page
crawl zero site current visited = ([], false)
crawl (suc fuel) site current visited =
    elim (next_page current (site current).0 (site current).1 visited) [
      | none ↦ (current ∷ [], true)
      | some url ↦ let rest = crawl fuel site url (url ∷ visited) in (current ∷ rest.0, rest.1)
    ]

pub next_page_new :
    (current : List ℕ) (link : Option (List ℕ)) (is_unit : Bool) (visited : List (List ℕ))
    (url : List ℕ)
    → next_page current link is_unit visited ≡ some url
    → one_of url visited ≡ false
unfolding next_page
next_page_new current none is_unit visited url h = absurd (ground (arith, h))
next_page_new current (some link) is_unit visited url h = ground (arith, h)

pub same_eq : (s t : List ℕ) → same s t ≡ true → s ≡ t
unfolding same
same_eq [] [] h = refl
same_eq [] (d ∷ t) h = absurd (ground (arith, h))
same_eq (c ∷ s) [] h = absurd (ground (arith, h))
same_eq (c ∷ s) (d ∷ t) h = ground (arith, h, same_eq s t)

-- How many of the URLs are not visited.
abbrev pub unvisited : List (List ℕ) → List (List ℕ) → ℕ
unvisited visited [] = 0
unvisited visited (u ∷ us) =
    let rest = unvisited visited us in if one_of u visited then rest else suc rest

pub unvisited_le : (visited us : List (List ℕ)) → unvisited visited us ≤ length us
unvisited_le visited [] = omega arith
unvisited_le visited (u ∷ us) = ground (arith, unvisited_le visited us)

pub unvisited_more :
    (url : List ℕ) (visited us : List (List ℕ))
    → unvisited (url ∷ visited) us ≤ unvisited visited us
unvisited_more url visited [] = omega arith
unvisited_more url visited (u ∷ us) = ground (arith, unvisited_more url visited us)

pub same_refl : (s : List ℕ) → same s s ≡ true
unfolding same
same_refl [] = refl
same_refl (c ∷ s) = ground (arith, same_refl s)

pub unvisited_drops :
    (url : List ℕ) (visited us : List (List ℕ))
    → one_of url us ≡ true
    → one_of url visited ≡ false
    → unvisited (url ∷ visited) us < unvisited visited us
unvisited_drops url visited [] h n = absurd (ground (arith, h))
unvisited_drops url visited (u ∷ us) h n = elim (Bool-cases (same url u)) [
  | inl e ↦
      let eq = same_eq url u e in
      let new : one_of u visited ≡ false = rw (← eq) n in
      let old : same u url ≡ true = rw (eq) (same_refl u) in
      ground (arith, new, old, unvisited_more url visited us)
  | inr e ↦
      let later : one_of url us ≡ true = ground (arith, e, h) in
      ground (arith, unvisited_drops url visited us later n, unvisited_more url visited us)
]

crawl_finishes :
    (fuel : ℕ) (site : List ℕ → Option (List ℕ) × Bool) (urls visited : List (List ℕ))
    (current : List ℕ)
    → ((c : List ℕ) (seen : List (List ℕ)) (url : List ℕ)
        → next_page c (site c).0 (site c).1 seen ≡ some url
        → one_of url urls ≡ true)
    → unvisited visited urls < fuel
    → (crawl fuel site current visited).1 ≡ true
unfolding crawl
crawl_finishes zero site urls visited current within enough = absurd (omega (arith, enough))
crawl_finishes (suc fuel) site urls visited current within enough =
    elim (Option-cases (next_page current (site current).0 (site current).1 visited)) [
      | inl e ↦ ground (arith, e)
      | inr (url, e) ↦
          let drops =
            unvisited_drops url visited urls (within current visited url e)
              (next_page_new current (site current).0 (site current).1 visited url e) in
          ground (
            arith,
            e,
            crawl_finishes fuel site urls (url ∷ visited) url within (omega (arith, drops, enough)),
          )
    ]

-- The loop ends: where the links of a site stay within a list of URLs, it comes to its end after
-- at most one page more than the list has entries, wherever it starts and however the pages link to
-- each other, in circles too.
pub crawl_ends :
    (site : List ℕ → Option (List ℕ) × Bool) (urls visited : List (List ℕ)) (current : List ℕ)
    → ((c : List ℕ) (seen : List (List ℕ)) (url : List ℕ)
        → next_page c (site c).0 (site c).1 seen ≡ some url
        → one_of url urls ≡ true)
    → (crawl (suc (length urls)) site current visited).1 ≡ true
crawl_ends site urls visited current within =
    crawl_finishes (suc (length urls)) site urls visited current within
      (omega (arith, unvisited_le visited urls))
