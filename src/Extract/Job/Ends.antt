-- ===== src/Extract/Job/Ends.antt =====
-- internal/jobs/extract.go: the end of the loop over the pages of a job.
use shiori_server.Prelude.{
  ℕ, zero, suc, ◌+◌, ◌≤◌, ◌<◌, ◌≡◌, refl, Bool, true, false, Option, none, some, List, [], ◌∷◌,
  arith, length, if◌then◌else◌,
}
use shiori_server.Chunker.Markdown.{one_of}
use shiori_server.Extract.Merge.{combine}
use shiori_server.Extract.Visit.{Visit, failed, opened, visit}
use shiori_server.Extract.Paging.{
  next_page, next_page_new, unvisited, unvisited_le, unvisited_more, unvisited_drops,
}
use shiori_server.Extract.Job.{
  JobEvent, Extraction, ai_failed, not_json, parsed, PageTurn, Loop, Turned, stopped, again,
  finished, next_turn, extracted, read_page, page_turn, Run, continue, run_loop, Start, undecodable,
  refused, accepted, first_loop, handle_extract,
}
use shiori_server.Extract.Job.Persist.{Saving}
use shiori_server.Extract.Job.Told.{told, handle_extract-told}

-- The links of a page lead from the URLs of the list `urls` into the list.
abbrev pub LeadsInto : List (List ℕ) → Extraction → Type 0
LeadsInto urls ai_failed = Unit
LeadsInto urls not_json = Unit
LeadsInto urls (parsed page link is_unit) =
    (current : List ℕ) (visited : List (List ℕ)) (url : List ℕ)
    → one_of current urls ≡ true
    → next_page current link is_unit visited ≡ some url
    → one_of url urls ≡ true

-- An upper bound on the turns that are left, one not counted.
abbrev turns_left : List (List ℕ) → Loop → ℕ
turns_left urls st = (if st.login_phase then 1 else 0) + unvisited st.visited urls

-- The URL that an accepted payload names is in the list.
abbrev pub StartsIn : List (List ℕ) → Start → Type 0
StartsIn urls undecodable = Unit
StartsIn urls refused = Unit
StartsIn urls (accepted url login) = one_of url urls ≡ true

-- Except at a login the loop stands in the list.
abbrev Inside : List (List ℕ) → Loop → Type 0
Inside urls st = st.login_phase ≡ false → one_of st.current urls ≡ true

-- Another turn stands in the list and has fewer turns left.
abbrev Smaller : ℕ → List (List ℕ) → Turned → Type 0
Smaller n urls (stopped title) = Unit
Smaller n urls (again st) = (turns_left urls st < n) × Inside urls st
Smaller n urls (finished merged) = Unit

extracted-Smaller :
    (urls : List (List ℕ)) (st : Loop) (confirmed : Bool) (x : Extraction)
    → st.login_phase ≡ false
    → Inside urls st
    → LeadsInto urls x
    → Smaller (turns_left urls st) urls (extracted st confirmed x)
extracted-Smaller urls st confirmed ai_failed e on h = tt
extracted-Smaller urls st confirmed not_json e on h = tt
extracted-Smaller urls st confirmed (parsed page link is_unit) e on h =
    go (next_page st.current link is_unit st.visited) refl
  where
    go :
        (o : Option (List ℕ))
        → next_page st.current link is_unit st.visited ≡ o
        → Smaller (turns_left urls st) urls (next_turn st confirmed (combine st.result page) o)
    go none k = tt
    go (some url) k =
        let inside = h st.current st.visited url (on e) k in
        let drops =
          unvisited_drops url st.visited urls inside
            (next_page_new st.current link is_unit st.visited url k) in
        (rw e (omega (arith, drops)), λ again. inside)

either :
    (b : Bool) (n : ℕ) (urls : List (List ℕ)) (x y : Turned × List JobEvent)
    → (b ≡ true → Smaller n urls x.0)
    → (b ≡ false → Smaller n urls y.0)
    → Smaller n urls (if b then x else y).0
either true n urls x y h k = h refl
either false n urls x y h k = k refl

more_left : (b : Bool) (m n : ℕ) → b ≡ true → m ≤ n → m < (if b then 1 else 0) + n
more_left true m n e h = omega (arith, h)
more_left false m n e h = cc e

read_page-Smaller :
    (urls : List (List ℕ)) (url : List ℕ) (t : PageTurn) (st : Loop) (v : Visit)
    → one_of url urls ≡ true
    → Inside urls st
    → LeadsInto urls t.extraction
    → Smaller (turns_left urls st) urls (read_page url t st v).0
read_page-Smaller urls url t st (failed title) start on h = tt
read_page-Smaller urls url t st (opened snap confirmed) start on h =
    either st.login_phase (turns_left urls st) urls _ _
      (λ e.
        let more =
          more_left st.login_phase (unvisited (url ∷ st.visited) urls) (unvisited st.visited urls) e
            (unvisited_more url st.visited urls) in
        (omega (arith, more), λ again. start))
      (λ e. extracted-Smaller urls st confirmed t.extraction e on h)

continue_ran :
    (saving : Saving) (cancelled : Bool) (next : Loop → Run) (n : ℕ) (urls : List (List ℕ))
    (t : Turned)
    → ((st : Loop) → turns_left urls st < n → Inside urls st → (next st).ran ≡ true)
    → Smaller n urls t
    → (continue saving cancelled next t).ran ≡ true
continue_ran saving true next n urls (stopped title) h k = refl
continue_ran saving false next n urls (stopped title) h k = refl
continue_ran saving cancelled next n urls (again st) h k = h st k.0 k.1
continue_ran saving cancelled next n urls (finished merged) h k = refl

run_loop_ran :
    (fuel : ℕ) (url : List ℕ) (world : ℕ → PageTurn) (saving : Saving) (urls : List (List ℕ))
    → ((i : ℕ) → LeadsInto urls (world i).extraction)
    → one_of url urls ≡ true
    → (i : ℕ) (st : Loop) → turns_left urls st < fuel
    → Inside urls st
    → (run_loop fuel url world saving i st).ran ≡ true
unfolding run_loop page_turn
run_loop_ran zero url world saving urls h start i st k on = absurd (omega (arith, k))
run_loop_ran (suc fuel) url world saving urls h start i st k on =
    continue_ran saving (world i).cancelled (run_loop fuel url world saving (suc i))
      (turns_left urls st) urls (page_turn url (world i) st).0
      (λ st' less on'.
        run_loop_ran fuel url world saving urls h start (suc i) st'
          (lt_le (turns_left urls st') (turns_left urls st) fuel less k) on')
      (read_page-Smaller urls url (world i) st
        (visit st.login_phase st.confirmed (world i).answers).0 start on (h i))
  where
    lt_le : (a b c : ℕ) → a < b → b < suc c → a < c
    lt_le a b c p q = omega (arith, p, q)

handle_extract_ran :
    (start : Start) (cancelled : Bool) (world : ℕ → PageTurn) (saving : Saving)
    (urls : List (List ℕ))
    → StartsIn urls start
    → ((i : ℕ) → LeadsInto urls (world i).extraction)
    → (handle_extract (suc (suc (length urls))) start cancelled world saving).ran ≡ true
unfolding handle_extract
handle_extract_ran undecodable true world saving urls start h = refl
handle_extract_ran undecodable false world saving urls start h = refl
handle_extract_ran refused true world saving urls start h = refl
handle_extract_ran refused false world saving urls start h = refl
handle_extract_ran (accepted url none) cancelled world saving urls inside h =
    run_loop_ran (suc (suc (length urls))) url world saving urls h inside 0 (first_loop url none)
      (omega (arith, unvisited_le (url ∷ []) urls)) (λ e. inside)
handle_extract_ran (accepted url (some login_url)) cancelled world saving urls inside h =
    run_loop_ran (suc (suc (length urls))) url world saving urls h inside 0
      (first_loop url (some login_url)) (omega (arith, unvisited_le (login_url ∷ []) urls))
      (λ e. cc e)

-- A job comes to its end and tells it right: where the URL of the payload is in a list of URLs and the
-- links of the pages lead from its URLs into it, at most two turns more than the list is long are taken, whatever else happens; exactly one event
-- ends the stream, the last one; and the error that the worker gets agrees with it: none if and only
-- if the event says that the medium is saved, the title of the error that was sent, or the
-- cancellation.
pub handle_extract-told_end :
    (start : Start) (cancelled : Bool) (world : ℕ → PageTurn) (saving : Saving)
    (urls : List (List ℕ))
    → StartsIn urls start
    → ((i : ℕ) → LeadsInto urls (world i).extraction)
    → ((handle_extract (suc (suc (length urls))) start cancelled world saving).ran ≡ true)
      × (told
            (handle_extract (suc (suc (length urls))) start cancelled world saving).events
            (handle_extract (suc (suc (length urls))) start cancelled world saving).returned
          ≡ true)
handle_extract-told_end start cancelled world saving urls inside h =
    let ran = handle_extract_ran start cancelled world saving urls inside h in
    (ran, handle_extract-told (suc (suc (length urls))) start cancelled world saving ran)
