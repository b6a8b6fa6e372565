-- ===== src/Extract/Tests.antt =====
-- Pages that a job opens and results that it merges, and the theorems about them.
use shiori_server.Prelude.{◌≡◌, refl, true, false, none, some, List, [], ◌∷◌}
use shiori_server.Prelude.{ℕ, Bool, Option, inl, inr, if◌then◌else◌, Bool-cases, arith}
use shiori_server.Chunker.Text.{same}
use shiori_server.Chunker.Markdown.{one_of}
use shiori_server.Extract.Paging.{next_page, resolve_link, crawl}
use shiori_server.Challenge.Types.{challenge_kind, kind_none}
use shiori_server.Extract.Visit.{Snapshot, Answers, opened, visit, resume, hand_over}
use shiori_server.Extract.Merge.{Item, items, other, Object, dedup}

abbrev plain : Snapshot
plain = record { user_action = false; kind = kind_none; at_login = false }

abbrev captcha : Snapshot
captcha = record { user_action = true; kind = challenge_kind; at_login = false }

-- A challenge that a person passes.
abbrev passed : Answers
passed = record {
  session = some 1;
  snapshot = some captcha;
  waited = none;
  closed = true;
  session' = some 2;
  snapshot' = some plain;
}

passed_opens : (visit false false passed).0 ≡ opened plain false
unfolding visit hand_over resume
passed_opens = refl

abbrev first_chapter : Item
first_chapter = record { url = some "/1"; encoded = "{1}" }

abbrev second_chapter : Item
second_chapter = record { url = none; encoded = "{2}" }

abbrev page_one : Object
page_one = ("title", other "T") ∷ ("chapters", items (first_chapter ∷ [])) ∷ []

abbrev page_two : Object
page_two = ("chapters", items (second_chapter ∷ first_chapter ∷ [])) ∷ []

abbrev chapters : List Item
chapters = first_chapter ∷ second_chapter ∷ first_chapter ∷ []

chapters_once : dedup [] chapters ≡ first_chapter ∷ second_chapter ∷ []
unfolding dedup
chapters_once = refl

-- Two pages that link to each other.
abbrev page_a : List ℕ
page_a = b'h' ∷ b't' ∷ b't' ∷ b'p' ∷ b'a' ∷ []

abbrev page_b : List ℕ
page_b = b'h' ∷ b't' ∷ b't' ∷ b'p' ∷ b'b' ∷ []

abbrev circle : List ℕ → Option (List ℕ) × Bool
circle url = if same url page_a then (some page_b, false) else (some page_a, false)

abbrev both : List (List ℕ)
both = page_a ∷ page_b ∷ []

circle_within :
    (c : List ℕ) (seen : List (List ℕ)) (url : List ℕ)
    → next_page c (circle c).0 (circle c).1 seen ≡ some url
    → one_of url both ≡ true
unfolding next_page resolve_link same
circle_within c seen url h = elim (Bool-cases (same c page_a)) [
  | inl e ↦ ground (arith, e, h)
  | inr e ↦ ground (arith, e, h)
]

circle_pages : (crawl 3 circle page_a (page_a ∷ [])).0 ≡ page_a ∷ page_b ∷ []
unfolding crawl
circle_pages = refl
