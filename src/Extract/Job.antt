-- ===== src/Extract/Job.antt =====
-- internal/jobs/extract.go: the handler that NewExtractHandler returns, from the payload to the
-- stored result, with the events that it publishes and the error that it returns. What the browser
-- and the person answer, what the model extracts from a page and what the repository stores are
-- given, page by page. The object of a page is what enrichExtractedUnitURLs leaves of it.
pub mod Persist
pub mod Trace
pub mod Told
pub mod Ends
pub mod Carried
pub mod First
pub mod Kept
mod Tests
use shiori_server.Prelude.{
  ℕ, zero, suc, ◌+◌, String, Bool, true, false, not, Option, none, some, List, [], ◌∷◌, ◌++◌, map,
  if◌then◌else◌,
}
use mathlib.Core.Option
use shiori_server.Challenge.Types.{UserActionKind, ChallengeError}
use shiori_server.Extract.Visit.{
  Snapshot, Answers, Action, Visit, failed, opened, is_blocked, kind_or_challenge, seen_as, visit,
}
use shiori_server.Extract.Merge.{Object, combine, dedup_all}
use shiori_server.Extract.Paging.{next_page}
use Persist.{
  ExtractResponse, UnitImport, not_opened, not_read, taken, Saving, import_actions, persist,
}

-- What the handler publishes under the topic of the job: the step of a progress event, the title of
-- an error.
pub data JobEvent : Type 0 where
  progress : String → JobEvent
  posed : UserActionKind → JobEvent
  error_sent : String → JobEvent
  cancel_sent : JobEvent
  done_sent : ExtractResponse → JobEvent

-- The two callbacks that the extraction reports to.
pub data Report : Type 0 where
  message inference : Report

abbrev pub reported : Report → JobEvent
reported message = progress "extracting"
reported inference = progress "ai_inference"

-- What the extraction of a page gives: an error, a text that is no JSON object, or the page's
-- result with its `next_page_url` and whether that is the URL of one of its chapters.
pub data Extraction : Type 0 where
  ai_failed not_json : Extraction
  parsed : Object → Option (List ℕ) → Bool → Extraction

-- One turn of the loop; `cancelled` tells whether an error that ends it counts as a cancellation.
pub record PageTurn : Type 0 where
  pub answers : Answers
  pub reports : List Report
  pub extraction : Extraction
  pub cancelled : Bool

-- The variables of the loop.
pub record Loop : Type 0 where
  pub current : List ℕ
  pub login_phase : Bool
  pub confirmed : Bool
  pub visited : List (List ℕ)
  pub result : Option Object

-- How a turn ends: the title of an error, another turn, or the result of all the pages.
pub data Turned : Type 0 where
  stopped : String → Turned
  again : Loop → Turned
  finished : Object → Turned

-- What is told of a visit before an error ends it.
abbrev pub after_wait : Option ChallengeError → Bool → List JobEvent
after_wait (some e) closed = []
after_wait none closed = if closed then progress "resuming" ∷ [] else []

abbrev pub after_snapshot : Answers → Option Snapshot → List JobEvent
after_snapshot a none = []
after_snapshot a (some snap) =
    if not snap.user_action
    then []
    else if is_blocked snap.kind
    then []
    else posed (kind_or_challenge snap.kind) ∷ after_wait a.waited a.closed

unfoldable pub visit_events : Bool → Bool → Answers → List JobEvent
visit_events login_phase confirmed a = progress "navigating" ∷ elim a.session [
  | none ↦ []
  | some s ↦
      progress "snapshot" ∷ after_snapshot a (Option.map (seen_as login_phase confirmed) a.snapshot)
]

-- From the pagination test to the end of the turn.
abbrev pub next_turn : Loop → Bool → Object → Option (List ℕ) → Turned
next_turn st confirmed merged none = finished merged
next_turn st confirmed merged (some url) = again (record st {
  current = url;
  confirmed = confirmed;
  visited = url ∷ st.visited;
  result = some merged;
})

abbrev pub extracted : Loop → Bool → Extraction → Turned
extracted st confirmed ai_failed = stopped "Extraction Error"
extracted st confirmed not_json = stopped "Extraction Error"
extracted st confirmed (parsed page link is_unit) =
    next_turn st confirmed (combine st.result page) (next_page st.current link is_unit st.visited)

abbrev pub after_login : List ℕ → Loop → Bool → Turned
after_login url st confirmed = again (record st {
  current = url;
  login_phase = false;
  confirmed = confirmed;
  visited = url ∷ st.visited;
})

abbrev pub read_page : List ℕ → PageTurn → Loop → Visit → Turned × List JobEvent
read_page url t st (failed title) = (stopped title, [])
read_page url t st (opened snap confirmed) =
    if st.login_phase then (after_login url st confirmed, progress "authenticated" ∷ []) else (
      extracted st confirmed t.extraction,
      progress "distilling"
          ∷ progress "resolving_urls"
          ∷ progress "extracting"
          ∷ map reported t.reports,
    )

-- One turn: how it ends, the calls of the browser and of the challenge manager, and the events.
unfoldable pub page_turn : List ℕ → PageTurn → Loop → Turned × List Action × List JobEvent
page_turn url t st =
    let seen = visit st.login_phase st.confirmed t.answers in
    let page = read_page url t st seen.0 in
    (page.0, seen.1, visit_events st.login_phase st.confirmed t.answers ++ page.1)

-- What a job leaves: the error that it returns, none for nil; the calls; the events. `ran` is false
-- where the fuel did not suffice.
pub record Run : Type 0 where
  pub ran : Bool
  pub returned : Option String
  pub actions : List Action
  pub events : List JobEvent

-- sendError
abbrev pub send_error : Bool → String → Run
send_error cancelled title =
    if cancelled
    then record {
      ran = true;
      returned = some "context canceled";
      actions = [];
      events = cancel_sent ∷ [];
    }
    else record { ran = true; returned = some title; actions = []; events = error_sent title ∷ [] }

abbrev pub images_told : ℕ → List JobEvent
images_told zero = []
images_told (suc n) = progress "saving_chapter_images" ∷ images_told n

abbrev pub unit_events : UnitImport → List JobEvent
unit_events (not_opened warning) = progress "importing_chapters" ∷ []
unit_events (not_read session warning) = progress "importing_chapters" ∷ []
unit_events (taken session images warnings) = progress "importing_chapters" ∷ images_told images

unfoldable pub import_events : List UnitImport → List JobEvent
import_events [] = []
import_events (u ∷ us) = unit_events u ++ import_events us

abbrev pub finish_job : Saving → Object → Run
finish_job saving merged =
    let (response, returned, units) = persist saving (dedup_all merged) in
    record {
      ran = true;
      returned = returned;
      actions = import_actions units;
      events = progress "saving" ∷ import_events units ++ done_sent response ∷ [];
    }

abbrev pub told_before : List Action → List JobEvent → Run → Run
told_before actions events r = record r {
  actions = actions ++ r.actions;
  events = events ++ r.events;
}

abbrev pub continue : Saving → Bool → (Loop → Run) → Turned → Run
continue saving cancelled next (stopped title) = send_error cancelled title
continue saving cancelled next (again st) = next st
continue saving cancelled next (finished merged) = finish_job saving merged

-- The loop, from the turn `i` on; `world` gives each turn what the rest of the system answers.
unfoldable pub run_loop : ℕ → List ℕ → (ℕ → PageTurn) → Saving → ℕ → Loop → Run
run_loop zero url world saving i st = record {
  ran = false;
  returned = none;
  actions = [];
  events = [];
}
run_loop (suc fuel) url world saving i st =
    let (turned, actions, events) = page_turn url (world i) st in
    told_before actions events
      (continue saving (world i).cancelled (run_loop fuel url world saving (suc i)) turned)

-- The payload: not JSON, refused by Validate, or a URL with the login URL of one that needs a login.
pub data Start : Type 0 where
  undecodable refused : Start
  accepted : List ℕ → Option (List ℕ) → Start

abbrev pub first_loop : List ℕ → Option (List ℕ) → Loop
first_loop url none = record {
  current = url;
  login_phase = false;
  confirmed = false;
  visited = url ∷ [];
  result = none;
}
first_loop url (some login_url) = record {
  current = login_url;
  login_phase = true;
  confirmed = false;
  visited = login_url ∷ [];
  result = none;
}

-- The handler; `cancelled` is that of an error in the payload.
unfoldable pub handle_extract : ℕ → Start → Bool → (ℕ → PageTurn) → Saving → Run
handle_extract fuel undecodable cancelled world saving = send_error cancelled "Invalid Payload"
handle_extract fuel refused cancelled world saving = send_error cancelled "Invalid Request"
handle_extract fuel (accepted url login) cancelled world saving =
    run_loop fuel url world saving 0 (first_loop url login)
