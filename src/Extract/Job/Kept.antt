-- ===== src/Extract/Job/Kept.antt =====
-- internal/jobs/extract.go: the entries of the pages in the result of a job.
use shiori_server.Prelude.{
  ℕ, zero, suc, ◌≡◌, refl, sym, ap, ◌∙◌, String, Bool, true, false, Option, none, some, List, [],
  ◌∷◌, ◌++◌, append-nil, append_assoc, arith, inl, inr, Bool-cases,
}
use shiori_server.Extract.Visit.{Visit, Action, visit}
use shiori_server.Extract.Merge.{Item, Object, dedup, dedup_all}
use shiori_server.Extract.Job.{
  JobEvent, progress, posed, error_sent, cancel_sent, done_sent, PageTurn, Loop, Turned, stopped,
  again, finished, visit_events, send_error, page_turn, Run, continue, run_loop, accepted,
  first_loop, handle_extract, import_events,
}
use shiori_server.Extract.Job.Persist.{
  ExtractResponse, Saving, is_stored, store_decoded, store_answer, type_for, persist,
}
use shiori_server.Extract.Job.Told.{
  Quiet, Quiet-append, visit_events-Quiet, read_page-Quiet, import_events-Quiet,
}
use shiori_server.Extract.Job.First.{FirstOf, dedup-FirstOf}
use shiori_server.Extract.Job.Carried.{
  entries, all_entries, entries-dedup_all, page_of, follow, pages_read, IsPage, so_far,
  ListedResult, read_page-Carries, Carries,
}

-- The response that the subscribers get with the event `done`.
abbrev pub done_of : List JobEvent → Option ExtractResponse
done_of [] = none
done_of (progress step ∷ es) = done_of es
done_of (posed kind ∷ es) = done_of es
done_of (error_sent title ∷ es) = done_of es
done_of (cancel_sent ∷ es) = done_of es
done_of (done_sent r ∷ es) = some r

done_of-append : (xs ys : List JobEvent) → Quiet xs → done_of (xs ++ ys) ≡ done_of ys
done_of-append [] ys h = refl
done_of-append (progress step ∷ xs) ys h = done_of-append xs ys h.1
done_of-append (posed kind ∷ xs) ys h = done_of-append xs ys h.1
done_of-append (error_sent title ∷ xs) ys h = cc h.0
done_of-append (cancel_sent ∷ xs) ys h = cc h.0
done_of-append (done_sent r ∷ xs) ys h = cc h.0

persist-ai_output : (s : Saving) (o : Object) → (persist s o).0.ai_output ≡ o
unfolding persist
persist-ai_output s o = elim (Bool-cases (is_stored s.target)) [
  | inl e ↦ rw e (decoded (s.media_type o))
  | inr e ↦ rw e refl
]
  where
    answer : (p : Option String × String) → (store_answer s o p).0.ai_output ≡ o
    answer (none, error) = refl
    answer (some id, error) = refl

    decoded : (t : Option String) → (store_decoded s o t).0.ai_output ≡ o
    decoded none = refl
    decoded (some t) = answer (s.store (type_for s.target t) o)

no_done :
    (saving : Saving) (cancelled : Bool) (title : String)
    → done_of (send_error cancelled title).events ≡ none
no_done saving true title = refl
no_done saving false title = refl

all_entries-append :
    (k : String) (os ps : List Object)
    → all_entries k (os ++ ps) ≡ all_entries k os ++ all_entries k ps
all_entries-append k [] ps = refl
all_entries-append k (o ∷ os) ps =
    ap (λ l. entries k o ++ l) (all_entries-append k os ps)
    ∙ sym (append_assoc (entries k o) (all_entries k os) (all_entries k ps))

continue-Kept :
    (k : String) (saving : Saving) (cancelled : Bool) (next : Loop → Run)
    (pages : Loop → List Object) (l : List Item) (t : Turned) (r : ExtractResponse)
    → ((st : Loop)
        → ListedResult k st.result
        → done_of (next st).events ≡ some r
        → entries k r.ai_output ≡ dedup [] (so_far k st.result ++ all_entries k (pages st)))
    → Carries k l t
    → done_of (continue saving cancelled next t).events ≡ some r
    → entries k r.ai_output ≡ dedup [] (l ++ all_entries k (follow pages t))
continue-Kept k saving cancelled next pages l (stopped title) r ih c h =
    absurd (ground (arith, h, no_done saving cancelled title))
continue-Kept k saving cancelled next pages l (again st) r ih c h =
    ih st c.1 h ∙ ap (λ m. dedup [] (m ++ all_entries k (pages st))) c.0
continue-Kept k saving cancelled next pages l (finished merged) r ih c h =
    let units = (persist saving (dedup_all merged)).2 in
    let quiet = import_events-Quiet units in
    let last =
      done_of-append (import_events units) (done_sent (persist saving (dedup_all merged)).0 ∷ [])
        quiet in
    let same : (persist saving (dedup_all merged)).0 ≡ r = cc (last, h) in
    ap (λ x. entries k x.ai_output) (sym same)
    ∙ ap (entries k) (persist-ai_output saving (dedup_all merged))
    ∙ entries-dedup_all k merged
    ∙ ap (dedup []) (c ∙ sym (append-nil l))

run_loop-Kept :
    (k : String) (fuel : ℕ) (url : List ℕ) (world : ℕ → PageTurn) (saving : Saving)
    → ((i : ℕ) → IsPage k (world i).extraction)
    → (i : ℕ) (st : Loop) (r : ExtractResponse) → ListedResult k st.result
    → done_of (run_loop fuel url world saving i st).events ≡ some r
    → entries k r.ai_output
      ≡ dedup [] (so_far k st.result ++ all_entries k (pages_read fuel url world i st))
unfolding run_loop page_turn pages_read
run_loop-Kept k zero url world saving pages i st r listed h = cc h
run_loop-Kept k (suc fuel) url world saving pages i st r listed h =
    continue-Kept k saving (world i).cancelled (run_loop fuel url world saving (suc i))
      (pages_read fuel url world (suc i)) (so_far k st.result ++ all_entries k own)
      (page_turn url (world i) st).0 r
      (λ st' listed' done. run_loop-Kept k fuel url world saving pages (suc i) st' r listed' done)
      (read_page-Carries k url (world i) st seen.0 (pages i) listed)
      (sym (done_of-append told _ quiet) ∙ h)
    ∙ ap (dedup []) (
        append_assoc (so_far k st.result) (all_entries k own) (all_entries k later)
        ∙ ap (λ l. so_far k st.result ++ l) (sym (all_entries-append k own later)))
  where
    seen : Visit × List Action
    seen = visit st.login_phase st.confirmed (world i).answers

    told : List JobEvent
    told = (page_turn url (world i) st).2

    quiet : Quiet told
    quiet =
        Quiet-append (visit_events st.login_phase st.confirmed (world i).answers) _
          (visit_events-Quiet st.login_phase st.confirmed (world i).answers)
          (read_page-Quiet url (world i) st seen.0)

    own : List Object
    own = page_of st.login_phase seen.0 (world i).extraction

    later : List Object
    later = follow (pages_read fuel url world (suc i)) (page_turn url (world i) st).0

handle_extract-dedup :
    (k : String) (fuel : ℕ) (url : List ℕ) (login : Option (List ℕ)) (cancelled : Bool)
    (world : ℕ → PageTurn) (saving : Saving) (r : ExtractResponse)
    → ((i : ℕ) → IsPage k (world i).extraction)
    → done_of (handle_extract fuel (accepted url login) cancelled world saving).events ≡ some r
    → entries k r.ai_output
      ≡ dedup [] (all_entries k (pages_read fuel url world 0 (first_loop url login)))
unfolding handle_extract
handle_extract-dedup k fuel url none cancelled world saving r pages h =
    run_loop-Kept k fuel url world saving pages 0 (first_loop url none) r tt h
handle_extract-dedup k fuel url (some login_url) cancelled world saving r pages h =
    run_loop-Kept k fuel url world saving pages 0 (first_loop url (some login_url)) r tt h

-- No page's entries are lost and none stands twice: where each page is a map with a list, null or
-- nothing under a key, the result that `done` announces has under that key the entries of all the
-- pages that the job read, in their order, each only where its name first occurs: its url, or its
-- JSON text where it has no url or an empty one.
pub handle_extract-Kept :
    (k : String) (fuel : ℕ) (url : List ℕ) (login : Option (List ℕ)) (cancelled : Bool)
    (world : ℕ → PageTurn) (saving : Saving) (r : ExtractResponse)
    → ((i : ℕ) → IsPage k (world i).extraction)
    → done_of (handle_extract fuel (accepted url login) cancelled world saving).events ≡ some r
    → FirstOf []
        (all_entries k (pages_read fuel url world 0 (first_loop url login)))
        (entries k r.ai_output)
handle_extract-Kept k fuel url login cancelled world saving r pages h =
    let all = all_entries k (pages_read fuel url world 0 (first_loop url login)) in
    rw (handle_extract-dedup k fuel url login cancelled world saving r pages h)
      (dedup-FirstOf [] all)
