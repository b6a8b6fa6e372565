-- ===== src/Extract/Job/Tests.antt =====
-- A job with a login and two pages, and the theorems about it.
use shiori_server.Prelude.{
  ap, eq_iff, ℕ, zero, suc, ◌≡◌, refl, inl, inr, Bool-cases, String, true, false, none, some, List,
  [], ◌∷◌, arith, ◌++◌,
}
use shiori_server.Challenge.Types.{login, kind_none}
use shiori_server.Chunker.Text.{same, has_prefix}
use shiori_server.Chunker.Markdown.{one_of}
use shiori_server.Extract.Visit.{Snapshot, Answers, visit, hand_over, resume}
use shiori_server.Extract.Merge.{
  Item, items, other, Object, combine, merge, merge_entry, key_of, dedup, dedup_all,
}
use shiori_server.Extract.Paging.{next_page, resolve_link, same_eq, split_slash}
use shiori_server.Extract.Job.{
  JobEvent, progress, posed, done_sent, message, inference, Extraction, parsed, PageTurn,
  visit_events, page_turn, run_loop, first_loop, accepted, handle_extract, import_events,
}
use shiori_server.Extract.Job.Persist.{
  ExtractResponse, not_opened, not_read, taken, Saving, persist,
}
use shiori_server.Extract.Job.Trace.{IsClean, handle_extract-IsClean}
use shiori_server.Extract.Job.Told.{told}
use shiori_server.Extract.Job.Carried.{IsPage, entries, all_entries, pages_read}
use shiori_server.Extract.Job.First.{FirstOf}
use shiori_server.Extract.Job.Kept.{done_of, handle_extract-Kept}
use shiori_server.Extract.Job.Ends.{LeadsInto, handle_extract-told_end}

abbrev plain : Snapshot
plain = record { user_action = false; kind = kind_none; at_login = false }

abbrev login_page : Snapshot
login_page = record { user_action = false; kind = kind_none; at_login = true }

-- A person logs in on the login page, which opens again without asking for one.
abbrev logged_in : Answers
logged_in = record {
  session = some 1;
  snapshot = some login_page;
  waited = none;
  closed = true;
  session' = some 2;
  snapshot' = some plain;
}

abbrev seen_page : Answers
seen_page = record {
  session = some 3;
  snapshot = some plain;
  waited = none;
  closed = true;
  session' = none;
  snapshot' = none;
}

-- x://a/1
abbrev first_url : List ℕ
first_url = b'x' ∷ b':' ∷ b'/' ∷ b'/' ∷ b'a' ∷ b'/' ∷ b'1' ∷ []

-- x://a/2
abbrev second_url : List ℕ
second_url = b'x' ∷ b':' ∷ b'/' ∷ b'/' ∷ b'a' ∷ b'/' ∷ b'2' ∷ []

-- /2
abbrev second_link : List ℕ
second_link = b'/' ∷ b'2' ∷ []

abbrev both_urls : List (List ℕ)
both_urls = first_url ∷ second_url ∷ []

abbrev chapter : String → Item
chapter url = record { url = some url; encoded = "{}" }

abbrev first_page : Object
first_page = ("title", other "T") ∷ ("chapters", items (chapter "/1" ∷ [])) ∷ []

abbrev second_page : Object
second_page = ("chapters", items (chapter "/1" ∷ chapter "/2" ∷ [])) ∷ []

abbrev both_pages : Object
both_pages = ("title", other "T") ∷ ("chapters", items (chapter "/1" ∷ chapter "/2" ∷ [])) ∷ []

abbrev turn_with : Answers → Extraction → PageTurn
turn_with a x = record {
  answers = a;
  reports = message ∷ inference ∷ [];
  extraction = x;
  cancelled = false;
}

abbrev world : ℕ → PageTurn
world zero = turn_with logged_in (parsed [] none false)
world (suc zero) = turn_with seen_page (parsed first_page (some second_link) false)
world (suc (suc i)) = turn_with seen_page (parsed second_page (some second_link) false)

abbrev saving : Saving
saving = record {
  target = "manga";
  media_type = λ o. some "";
  store = λ t o. (some "m1", "");
  units = some (λ o. taken 5 2 [] ∷ not_opened "/2: timeout" ∷ not_read 6 "/3: closed" ∷ []);
  warnings = [];
}

abbrev saved_response : ExtractResponse
saved_response = record {
  ai_output = both_pages;
  warnings = "/2: timeout" ∷ "/3: closed" ∷ [];
  saved = true;
  media_id = some "m1";
}

abbrev page_events : List JobEvent
page_events =
    progress "navigating"
    ∷ progress "snapshot"
    ∷ progress "distilling"
    ∷ progress "resolving_urls"
    ∷ progress "extracting"
    ∷ progress "extracting"
    ∷ progress "ai_inference"
    ∷ []

-- The whole job: a login, two pages whose chapters are merged, and the medium is saved.
job_events :
    (handle_extract 4 (accepted first_url (some (b'0' ∷ []))) false world saving).events
    ≡ (progress "navigating"
        ∷ progress "snapshot"
        ∷ posed login
        ∷ progress "resuming"
        ∷ progress "authenticated"
        ∷ [])
      ++ page_events
      ++ page_events
      ++ progress "saving"
        ∷ progress "importing_chapters"
        ∷ progress "saving_chapter_images"
        ∷ progress "saving_chapter_images"
        ∷ progress "importing_chapters"
        ∷ progress "importing_chapters"
        ∷ done_sent saved_response
        ∷ []
unfolding handle_extract run_loop page_turn visit visit_events hand_over resume next_page
    resolve_link same has_prefix split_slash combine merge merge_entry dedup dedup_all key_of
    persist import_events
job_events = refl

handle_extract-IsClean_example :
    IsClean (handle_extract 4 (accepted first_url (some (b'0' ∷ []))) false world saving).actions
handle_extract-IsClean_example =
    handle_extract-IsClean 4 (accepted first_url (some (b'0' ∷ []))) false world saving

-- Both pages link to the second one by a path on their host.
second_leads :
    (current : List ℕ) (visited : List (List ℕ)) (url : List ℕ)
    → one_of current both_urls ≡ true
    → next_page current (some second_link) false visited ≡ some url
    → one_of url both_urls ≡ true
unfolding next_page resolve_link has_prefix same split_slash
second_leads current visited url inside h = elim (Bool-cases (same current first_url)) [
  | inl e ↦
      let here : current ≡ first_url = same_eq current first_url e in ground (arith, rw here at h)
  | inr apart ↦
      let there : current ≡ second_url =
        same_eq current second_url (ground (arith, apart, inside)) in
      ground (arith, rw there at h)
]

world_leads : (i : ℕ) → LeadsInto both_urls (world i).extraction
unfolding next_page
world_leads zero = λ current visited url inside h. cc h
world_leads (suc zero) = second_leads
world_leads (suc (suc i)) = second_leads

handle_extract-told_end_example :
    ((handle_extract 4 (accepted first_url (some (b'0' ∷ []))) false world saving).ran ≡ true)
    × (told
          (handle_extract 4 (accepted first_url (some (b'0' ∷ []))) false world saving).events
          (handle_extract 4 (accepted first_url (some (b'0' ∷ []))) false world saving).returned
        ≡ true)
unfolding same
handle_extract-told_end_example =
    handle_extract-told_end (accepted first_url (some (b'0' ∷ []))) false world saving both_urls
      refl world_leads

world_pages : (i : ℕ) → IsPage "chapters" (world i).extraction
world_pages zero = (tt, tt)
world_pages (suc zero) = (((λ e. ground (arith, e, eq_iff "chapters" "title"), tt), (tt, tt)), tt)
world_pages (suc (suc i)) = ((tt, tt), tt)

is_done :
    done_of (handle_extract 4 (accepted first_url (some (b'0' ∷ []))) false world saving).events
    ≡ some saved_response
is_done = ap done_of job_events

handle_extract-Kept_example :
    FirstOf []
      (all_entries "chapters"
        (pages_read 4 first_url world 0 (first_loop first_url (some (b'0' ∷ [])))))
      (entries "chapters" saved_response.ai_output)
handle_extract-Kept_example =
    handle_extract-Kept "chapters" 4 first_url (some (b'0' ∷ [])) false world saving saved_response
      world_pages is_done
