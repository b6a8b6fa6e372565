-- ===== src/Routes/Tests.antt =====
-- Templates of two routes and chapters of a page, and the theorems about them.
use shiori_server.Prelude.{◌≡◌, refl, true, false, List, [], ◌∷◌, All, ◌==◌, if◌then◌else◌}
use shiori_server.Chunker.Text.{
  trim_space, trim_after, reverse_onto, space_tail, space_tail_back, same,
}
use shiori_server.Routes.Enrich.{
  Discovered, Entry, object, no_object, with_points, without_zeros, normalize, number_in, url_of,
  fill, seen_in, missing, enrich,
}
use shiori_server.Routes.Counted.{count, chapter_zero, is_discovered, count-enrich}
use shiori_server.Routes.Linked.{has_no_url, Full, enrich_links}
use shiori_server.Routes.Template.{Template, is_better, same_rank, same_route}

abbrev seen_twice : Template
seen_twice = record { prefix = "https://a.example/work/"; suffix = ""; score = 3; count = 2 }

abbrev seen_once : Template
seen_once = record { prefix = "https://a.example/read/"; suffix = ""; score = 3; count = 1 }

abbrev other_once : Template
other_once = record { prefix = "https://a.example/go/"; suffix = ""; score = 3; count = 1 }

lower : is_better seen_twice seen_once ≡ true
unfolding is_better
lower = refl

level : same_rank other_once seen_once ≡ true
unfolding same_rank
level = refl

apart : same_route other_once seen_once ≡ false
unfolding same_route
apart = refl

-- Chapter 1 was found on the page; the model gave it as 01 without a URL, and an entry that has no
-- number.
abbrev found_one : Discovered
found_one = record { number = b'1' ∷ []; title = []; url = b'/' ∷ b'1' ∷ [] }

abbrev found_two : Discovered
found_two = record { number = b'2' ∷ []; title = []; url = b'/' ∷ b'2' ∷ [] }

abbrev one_listed : List Entry
one_listed = object (b'0' ∷ b'1' ∷ []) [] [] ∷ no_object ∷ []

abbrev both_listed : List Entry
both_listed =
    object (b'0' ∷ b'1' ∷ []) [] (b'/' ∷ b'1' ∷ [])
    ∷ no_object
    ∷ object (b'2' ∷ []) [] (b'/' ∷ b'2' ∷ [])
    ∷ []

trim_two : trim_space (b'2' ∷ []) ≡ b'2' ∷ []
unfolding trim_space trim_after reverse_onto space_tail space_tail_back
trim_two = refl

trim_one : trim_space (b'1' ∷ []) ≡ b'1' ∷ []
unfolding trim_space trim_after reverse_onto space_tail space_tail_back
trim_one = refl

enrich_run : enrich one_listed (found_one ∷ found_two ∷ []) ≡ both_listed
unfolding enrich fill missing seen_in number_in url_of normalize with_points without_zeros
    trim_space trim_after reverse_onto space_tail space_tail_back same
enrich_run = refl

-- An entry without a number counts as chapter 0, and takes its URL.
numberless : number_in [] ≡ b'0' ∷ []
unfolding number_in normalize with_points without_zeros trim_space trim_after reverse_onto
numberless = refl

two_other : same (b'2' ∷ []) chapter_zero ≡ false
unfolding same
two_other = refl

count-enrich_example : count (b'2' ∷ []) (enrich one_listed (found_one ∷ found_two ∷ [])) ≡ (
    if count (b'2' ∷ []) one_listed == 0
    then if is_discovered (b'2' ∷ []) (found_one ∷ found_two ∷ []) then 1 else 0
    else count (b'2' ∷ []) one_listed)
count-enrich_example =
    count-enrich one_listed (found_one ∷ found_two ∷ []) (b'2' ∷ []) two_other
      (trim_one, (trim_two, tt))

two_is_discovered : is_discovered (b'2' ∷ []) (found_one ∷ found_two ∷ []) ≡ true
unfolding normalize with_points without_zeros trim_space trim_after reverse_onto space_tail
    space_tail_back same
two_is_discovered = refl

Full-one : Full found_one.url
unfolding trim_space trim_after reverse_onto space_tail space_tail_back
Full-one = refl

Full-two : Full found_two.url
unfolding trim_space trim_after reverse_onto space_tail space_tail_back
Full-two = refl

enrich_links_example :
    All (λ e. has_no_url (b'2' ∷ []) e ≡ false) (enrich one_listed (found_one ∷ found_two ∷ []))
enrich_links_example =
    enrich_links one_listed (found_one ∷ found_two ∷ []) (b'2' ∷ []) (Full-one, (Full-two, tt))
      two_is_discovered
