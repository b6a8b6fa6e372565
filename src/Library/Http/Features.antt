-- ===== src/Library/Http/Features.antt =====
-- internal/library/http.go: collections, the reading history and downloads.
use shiori_server.Prelude.{ℕ, String, Bool, Option, none, some, List, ltb, if◌then◌else◌}
use shiori_server.Chunker.Text.{trim_space}
use shiori_server.Library.Types.{
  Media, Collection, HistoryEntry, Download, Database, Call, Result, ok, err,
}
use shiori_server.Library.Features.{
  list_collections, create_collection, get_collection, update_collection, delete_collection,
  add_member, remove_member, list_members, list_history, upsert_history, delete_history,
  list_downloads, delete_download,
}
use shiori_server.Storage.Interface.{Provider}
use shiori_server.Library.Http.Media.{
  Reply, json, empty, problem, plain_missing, parse_limit, one, paged, is_blank_key, remove_files,
  removed,
}

pub record CollectionPayload : Type 0 where
  pub name : List ℕ
  pub description : String

-- A number that JSON gives, with its sign: below 0, or the number (of millionths, for progress).
pub data Signed : Type 0 where
  below_zero : Signed
  natural : ℕ → Signed

pub record HistoryPayload : Type 0 where
  pub position : Signed
  pub progress : Signed
  pub completed : Bool

-- What a call that gives nothing back leads to.
abbrev pub done : Result (Unit {0}) × Database → Reply (Unit {0}) × Database
done (err e, d) = (problem 500 "Database Error", d)
done (ok u, d) = (empty, d)

abbrev pub with_status : {A : Type 0} → ℕ → Result A × Database → Reply A × Database
with_status n (err e, d) = (problem 500 "Database Error", d)
with_status n (ok a, d) = (json n a, d)

abbrev pub all_of : {A : Type 0} → Result A → Reply A
all_of (err e) = problem 500 "Database Error"
all_of (ok a) = json 200 a

unfoldable pub handle_list_collections : Call → Database → Reply (List Collection)
handle_list_collections c d = all_of (list_collections c d)

-- The name that is stored, where there is one that is not blank.
unfoldable pub named : Option CollectionPayload → Option (List ℕ × String)
unfolding trim_space
named none = none
named (some p) =
    let name = trim_space p.name in if is_blank_key name then none else some (name, p.description)

abbrev pub named_created : Call → Option (List ℕ × String) → Database → Reply Collection × Database
named_created c none d = (problem 400 "Invalid Collection", d)
named_created c (some (name, text)) d = with_status 201 (create_collection c name text d)

unfoldable pub handle_create_collection :
    Call → Option CollectionPayload → Database → Reply Collection × Database
unfolding named
handle_create_collection c body d = named_created c (named body) d

unfoldable pub handle_get_collection : Call → ℕ → Database → Reply Collection
handle_get_collection c i d = one (get_collection c i d)

abbrev pub collection_updated : Result (Option Collection) × Database → Reply Collection × Database
collection_updated (err e, d) = (problem 500 "Database Error", d)
collection_updated (ok none, d) = (plain_missing, d)
collection_updated (ok (some x), d) = (json 200 x, d)

abbrev pub named_updated :
    Call → ℕ → Option (List ℕ × String) → Database → Reply Collection × Database
named_updated c i none d = (problem 400 "Invalid Collection", d)
named_updated c i (some (name, text)) d = collection_updated (update_collection c i name text d)

unfoldable pub handle_update_collection :
    Call → ℕ → Option CollectionPayload → Database → Reply Collection × Database
unfolding named
handle_update_collection c i body d = named_updated c i (named body) d

unfoldable pub handle_delete_collection : Call → ℕ → Database → Reply (Unit {0}) × Database
handle_delete_collection c i d = done (delete_collection c i d)

unfoldable pub handle_list_members : Call → ℕ → ℕ → Option ℕ → Database → Reply (List Media)
unfolding parse_limit
handle_list_members c i n cursor d = paged (list_members c i (parse_limit n) cursor d)

unfoldable pub handle_add_member : Call → ℕ → ℕ → Database → Reply (Unit {0}) × Database
handle_add_member c i j d = done (add_member c i j d)

unfoldable pub handle_remove_member : Call → ℕ → ℕ → Database → Reply (Unit {0}) × Database
handle_remove_member c i j d = done (remove_member c i j d)

unfoldable pub handle_list_history : Call → ℕ → Option ℕ → Database → Reply (List HistoryEntry)
unfolding parse_limit
handle_list_history c n cursor d = paged (list_history c (parse_limit n) cursor d)

-- 1000000 stands for the progress 1.
abbrev pub put_progress :
    Call → ℕ → Bool → Signed → Signed → Database → Reply HistoryEntry × Database
put_progress c i completed below_zero position d = (problem 400 "Invalid Progress", d)
put_progress c i completed (natural progress) below_zero d = (problem 400 "Invalid Progress", d)
put_progress c i completed (natural progress) (natural position) d =
    if ltb 1000000 progress
    then (problem 400 "Invalid Progress", d)
    else with_status 200 (upsert_history c i position progress completed d)

unfoldable pub handle_upsert_history :
    Call → ℕ → Option HistoryPayload → Database → Reply HistoryEntry × Database
handle_upsert_history c i none d = (problem 400 "Invalid Progress", d)
handle_upsert_history c i (some p) d = put_progress c i p.completed p.progress p.position d

unfoldable pub handle_delete_history : Call → ℕ → Database → Reply (Unit {0}) × Database
handle_delete_history c i d = done (delete_history c i d)

unfoldable pub handle_list_downloads : Call → ℕ → Option ℕ → Database → Reply (List Download)
unfolding parse_limit
handle_list_downloads c n cursor d = paged (list_downloads c (parse_limit n) cursor d)

abbrev pub download_deleted :
    {S : Type 0}
    → Provider S
    → Result (List (List ℕ)) × Database
    → S
    → Reply (Unit {0}) × Database × S
download_deleted p (err e, d) s = (problem 500 "Database Error", d, s)
download_deleted p (ok keys, d) s = removed (remove_files (some p) keys s) d

unfoldable pub handle_delete_download :
    {S : Type 0} → Provider S → Call → ℕ → Database → S → Reply (Unit {0}) × Database × S
handle_delete_download p c i d s = download_deleted p (delete_download c i d) s
