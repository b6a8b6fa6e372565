-- ===== src/Library/Http/Requests.antt =====
-- internal/library/http.go: sequences of requests, and what their checks keep out.
use shiori_server.Prelude.{ℕ, ◌≤◌, not, Option, List, [], ◌∷◌, ◌==◌}
use shiori_server.Prelude.Rows.{select}
use shiori_server.Prelude.Tables.{select_All}
use shiori_server.Library.Types.{MediaRequest, Collection, Database, Call}
use shiori_server.Library.Features.{
  delete_collection, add_member, remove_member, delete_history, is_member,
}
use shiori_server.Library.Http.Names.{IsNamed}
use shiori_server.Library.Http.Media.{handle_create_media}
use shiori_server.Library.Http.Features.{
  CollectionPayload, HistoryPayload, handle_create_collection, handle_update_collection,
  handle_delete_collection, handle_add_member, handle_remove_member, handle_upsert_history,
  handle_delete_history,
}
use shiori_server.Library.Http.Checks.{
  IsChecked, unless-IsChecked, done_lem, members-IsChecked, history-IsChecked,
  IsChecked-handle_create_media, IsChecked-post_collection, IsChecked-patch_collection,
  IsChecked-put_member, IsChecked-put_history,
}

-- The requests that write to the tables of media, collections and history.
pub data Request : Type 0 where
  post_media : Option MediaRequest → Request
  post_collection : Option CollectionPayload → Request
  patch_collection : ℕ → Option CollectionPayload → Request
  remove_collection : ℕ → Request
  put_member : ℕ → ℕ → Request
  take_member : ℕ → ℕ → Request
  put_history : ℕ → Option HistoryPayload → Request
  remove_history : ℕ → Request

unfoldable pub serve : Call → Request → Database → Database
serve c (post_media body) d = (handle_create_media c body d).1
serve c (post_collection body) d = (handle_create_collection c body d).1
serve c (patch_collection i body) d = (handle_update_collection c i body d).1
serve c (remove_collection i) d = (handle_delete_collection c i d).1
serve c (put_member i j) d = (handle_add_member c i j d).1
serve c (take_member i j) d = (handle_remove_member c i j d).1
serve c (put_history i body) d = (handle_upsert_history c i body d).1
serve c (remove_history i) d = (handle_delete_history c i d).1

IsChecked-serve : (c : Call) (r : Request) (d : Database) → IsChecked d → IsChecked (serve c r d)
unfolding serve handle_create_collection handle_update_collection handle_delete_collection
    handle_add_member handle_remove_member handle_delete_history delete_collection remove_member
    delete_history
IsChecked-serve c (post_media body) d v = IsChecked-handle_create_media c d v body
IsChecked-serve c (post_collection body) d v = IsChecked-post_collection c d v body
IsChecked-serve c (patch_collection i body) d v = IsChecked-patch_collection c d v i body
IsChecked-serve c (remove_collection i) d v =
    let keep = λ (x : Collection). not (x.id == i) in
    rw (done_lem (delete_collection c i d)) (
      unless-IsChecked c.fault d _ v (record {
        media_filled = v.media_filled;
        collections_named = select_All (λ x. IsNamed x.name) keep d.collections v.collections_named;
        progress_bounded = v.progress_bounded;
      }))
IsChecked-serve c (put_member i j) d v =
    rw (done_lem (add_member c i j d)) (IsChecked-put_member c d v i j)
IsChecked-serve c (take_member i j) d v = rw (done_lem (remove_member c i j d)) (
    unless-IsChecked c.fault d _ v
      (members-IsChecked c d v (select (λ m. not (is_member i j m)) d.members)))
IsChecked-serve c (put_history i body) d v = IsChecked-put_history c d v i body
IsChecked-serve c (remove_history i) d v = rw (done_lem (delete_history c i d)) (
    unless-IsChecked c.fault d _ v (
      history-IsChecked c d v (select (λ h. not (h.chapter_id == i)) d.history) (
        select_All (λ h. h.progress ≤ 1000000) (λ h. not (h.chapter_id == i)) d.history
          v.progress_bounded)))

unfoldable pub serve_all : List (Call × Request) → Database → Database
unfolding serve
serve_all [] d = d
serve_all ((c, r) ∷ rs) d = serve_all rs (serve c r d)

-- Where every media has a title, a type and a status, every collection a name that is not empty and
-- does not end in white space, and every history entry a progress of at most 1, this is so after any
-- sequence of requests that make media, write collections and their members, and write or delete
-- history, whatever their bodies.
pub IsChecked-serve_all :
    (rs : List (Call × Request)) (d : Database) → IsChecked d → IsChecked (serve_all rs d)
unfolding serve_all
IsChecked-serve_all [] d v = v
IsChecked-serve_all ((c, r) ∷ rs) d v =
    IsChecked-serve_all rs (serve c r d) (IsChecked-serve c r d v)
