-- ===== src/Storage/Promises.antt =====
-- internal/platform/storage/localfs/localfs.go: the provider against the promises of the
-- interface.
use mathlib.Core.Path.{subst}
use shiori_server.Prelude.{
  ℕ, ◌≡◌, refl, true, String, Option, none, some, List, arith, if◌then◌else◌, same_bytes,
  same_bytes_eq, Bool-cases, inl, inr,
}
use shiori_server.Storage.Interface.{Result, ok, err, Laws}
use shiori_server.Storage.Local.{
  Disk, resolve, written, unlinked, copied, or_else, at_path, put, get, delete, opened, get_at,
  get_unless, unlink, content_at, same_path, local, is_accepted,
}

written_lem :
    (path v : List ℕ) (r : Result (List ℕ)) (d : Disk)
    → content_at r (written path v d) ≡ (if same_path (ok path) r then some v else content_at r d)
written_lem path v (ok q) d = refl
written_lem path v (err e) d = refl

unlinked_lem :
    (path : List ℕ) (r : Result (List ℕ)) (d : Disk)
    → content_at r (unlinked path d) ≡ (if same_path (ok path) r then none else content_at r d)
unlinked_lem path (ok q) d = refl
unlinked_lem path (err e) d = refl

put_lem :
    (m n : Option String) (path v : List ℕ) (c : Option (ℕ × String)) (r : Result (List ℕ))
    (d : Disk)
    → (or_else m d (or_else n d (copied path v c d))).0 ≡ none
    → content_at r (or_else m d (or_else n d (copied path v c d))).1
      ≡ (if same_path (ok path) r then some v else content_at r d)
put_lem none none path v none r d h = written_lem path v r d
put_lem none none path v (some (n, e)) r d h = cc h
put_lem none (some e) path v c r d h = cc h
put_lem (some e) n path v c r d h = cc h

-- Nothing is the same as a key that does not resolve, and a missing file is not there.
unlink_lem :
    (path : List ℕ) (f : Option (List ℕ)) (o : Option String) (r : Result (List ℕ)) (d : Disk)
    → d.files path ≡ f
    → (unlink path f o d).0 ≡ none
    → content_at r (unlink path f o d).1 ≡ (if same_path (ok path) r then none else content_at r d)
unlink_lem path none o (err x) d missing h = refl
unlink_lem path none o (ok q) d missing h = elim (Bool-cases (same_bytes path q)) [
  | inl e ↦
      let gone : d.files q ≡ none =
        subst (λ x. d.files x ≡ none) (same_bytes_eq path q e) missing in
      rw (e, gone) refl
  | inr e ↦ rw e refl
]
unlink_lem path (some v) none r d there h = unlinked_lem path r d
unlink_lem path (some v) (some e) r d there h = cc h

unlink_failed :
    (path : List ℕ) (f : Option (List ℕ)) (o : Option String) (r : Result (List ℕ)) (d : Disk)
    (e : String)
    → (unlink path f o d).0 ≡ some e
    → content_at r (unlink path f o d).1 ≡ content_at r d
unlink_failed path none o r d e h = refl
unlink_failed path (some v) none r d e h = cc h
unlink_failed path (some v) (some x) r d e h = refl

module _ (d : Disk) (r : Result (List ℕ)) where
  put_at :
      (o : Option String) (q : Result (List ℕ)) (v : List ℕ)
      → let f = λ (path : List ℕ).
        or_else
          (d.mkdir_fault path)
          d
          (or_else (d.create_fault path) d (copied path v (d.copy_fault path) d)) in
        (or_else o d (at_path q d f)).0 ≡ none
        → content_at r (or_else o d (at_path q d f)).1
          ≡ (if same_path q r then some v else content_at r d)
  put_at none (ok path) v h =
      put_lem (d.mkdir_fault path) (d.create_fault path) path v (d.copy_fault path) r d h
  put_at none (err e) v h = cc h
  put_at (some e) q v h = cc h

  delete_at :
      (o : Option String) (q : Result (List ℕ))
      → let f = λ (path : List ℕ). unlink path (d.files path) (d.remove_fault path) d in
        (or_else o d (at_path q d f)).0 ≡ none
        → content_at r (or_else o d (at_path q d f)).1
          ≡ (if same_path q r then none else content_at r d)
  delete_at none (ok path) h = unlink_lem path (d.files path) (d.remove_fault path) r d refl h
  delete_at none (err e) h = cc h
  delete_at (some e) q h = cc h

  delete_at_failed :
      (o : Option String) (q : Result (List ℕ)) (e : String)
      → let f = λ (path : List ℕ). unlink path (d.files path) (d.remove_fault path) d in
        (or_else o d (at_path q d f)).0 ≡ some e
        → content_at r (or_else o d (at_path q d f)).1 ≡ content_at r d
  delete_at_failed none (ok path) e h =
      unlink_failed path (d.files path) (d.remove_fault path) r d e h
  delete_at_failed none (err x) e h = refl
  delete_at_failed (some x) q e h = refl

unlink_missing :
    (path : List ℕ) (f : Option (List ℕ)) (o : Option String) (d : Disk)
    → f ≡ none
    → (unlink path f o d).0 ≡ none
unlink_missing path none o d h = refl
unlink_missing path (some v) o d h = cc h

delete_at_missing :
    (o : Option String) (q : Result (List ℕ)) (d : Disk)
    → is_accepted o q ≡ true
    → content_at q d ≡ none
    → (or_else o d (at_path q d (λ path. unlink path (d.files path) (d.remove_fault path) d))).0
      ≡ none
delete_at_missing none (ok path) d h missing =
    unlink_missing path (d.files path) (d.remove_fault path) d missing
delete_at_missing none (err e) d h missing = cc h
delete_at_missing (some e) q d h missing = cc h

get_at_lem :
    (o : Option String) (q : Result (List ℕ)) (d : Disk) (v : Option (List ℕ))
    → get_unless o (get_at q d) ≡ ok v
    → v ≡ content_at q d
get_at_lem (some e) q d v h = cc h
get_at_lem none (err e) d v h = cc h
get_at_lem none (ok path) d v h = go (d.files path) (d.open_fault path) h
  where
    go : (f : Option (List ℕ)) (o : Option String) → opened f o ≡ ok v → v ≡ f
    go none o h = ground (arith, h)
    go (some x) none h = ground (arith, h)
    go (some x) (some e) h = cc h

pub Laws-local : (base : List ℕ) → Laws (local base)
unfolding put get delete
Laws-local base = record {
  put_done = λ k j v d h. put_at d (resolve base j) d.stopped (resolve base k) v h;
  delete_done = λ k j d h. delete_at d (resolve base j) d.stopped (resolve base k) h;
  delete_failed = λ k j d e h. delete_at_failed d (resolve base j) d.stopped (resolve base k) e h;
  delete_missing = λ k d h m. delete_at_missing d.stopped (resolve base k) d h m;
  get_done = λ k d v h. get_at_lem d.stopped (resolve base k) d v h;
}
