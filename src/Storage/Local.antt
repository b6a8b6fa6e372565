-- ===== src/Storage/Local.antt =====
-- internal/platform/storage/localfs/localfs.go: the provider on the local file system.
use shiori_server.Prelude.{
  ℕ, String, Bool, true, false, Option, none, some, List, [], ◌∷◌, ◌==◌, if◌then◌else◌, take,
  same_bytes,
}
use shiori_server.Storage.Interface.{Result, ok, err, Provider}
use shiori_server.Storage.Paths.{has_dots, has_prefix, join}

-- The files by their paths, the error of a context that is done, and what the operating system
-- refuses: MkdirAll, Create, Open and Remove of a path, and the reader or the disk after so many
-- bytes of a copy.
pub record Disk : Type 0 where
  pub files : List ℕ → Option (List ℕ)
  pub stopped : Option String
  pub mkdir_fault : List ℕ → Option String
  pub create_fault : List ℕ → Option String
  pub open_fault : List ℕ → Option String
  pub remove_fault : List ℕ → Option String
  pub copy_fault : List ℕ → Option (ℕ × String)

abbrev pub without_slash : List ℕ → List ℕ
without_slash [] = []
without_slash (b ∷ bs) = if b == b'/' then bs else b ∷ bs

-- filepath.FromSlash changes nothing where the separator is the slash.
unfoldable pub resolve : List ℕ → List ℕ → Result (List ℕ)
resolve base key =
    if has_dots key
    then err "localfs: invalid key containing '..'"
    else if has_prefix (join base (without_slash key)) base
    then ok (join base (without_slash key))
    else err "localfs: key escapes base directory"

abbrev pub written : List ℕ → List ℕ → Disk → Disk
written path v d = record d { files = λ q. if same_bytes path q then some v else d.files q }

abbrev pub unlinked : List ℕ → Disk → Disk
unlinked path d = record d { files = λ q. if same_bytes path q then none else d.files q }

-- os.Create empties the file; a copy that fails leaves what it has written.
abbrev pub copied : List ℕ → List ℕ → Option (ℕ × String) → Disk → Option String × Disk
copied path v none d = (none, written path v d)
copied path v (some (n, e)) d = (some e, written path (take n v) d)

abbrev pub or_else : Option String → Disk → Option String × Disk → Option String × Disk
or_else none d r = r
or_else (some e) d r = (some e, d)

abbrev pub at_path : Result (List ℕ) → Disk → (List ℕ → Option String × Disk) → Option String × Disk
at_path (err e) d f = (some e, d)
at_path (ok path) d f = f path

unfoldable pub put : List ℕ → List ℕ → List ℕ → Disk → Option String × Disk
unfolding resolve
put base key v d = or_else d.stopped d (
    at_path (resolve base key) d (λ path.
      or_else (d.mkdir_fault path) d
        (or_else (d.create_fault path) d (copied path v (d.copy_fault path) d))))

abbrev pub opened : Option (List ℕ) → Option String → Result (Option (List ℕ))
opened none fault = ok none
opened (some v) none = ok (some v)
opened (some v) (some e) = err e

abbrev pub get_at : Result (List ℕ) → Disk → Result (Option (List ℕ))
get_at (err e) d = err e
get_at (ok path) d = opened (d.files path) (d.open_fault path)

abbrev pub get_unless : Option String → Result (Option (List ℕ)) → Result (Option (List ℕ))
get_unless none r = r
get_unless (some e) r = err e

unfoldable pub get : List ℕ → List ℕ → Disk → Result (Option (List ℕ))
unfolding resolve
get base key d = get_unless d.stopped (get_at (resolve base key) d)

-- A file that does not exist is no error.
abbrev pub unlink : List ℕ → Option (List ℕ) → Option String → Disk → Option String × Disk
unlink path none fault d = (none, d)
unlink path (some v) none d = (none, unlinked path d)
unlink path (some v) (some e) d = (some e, d)

unfoldable pub delete : List ℕ → List ℕ → Disk → Option String × Disk
unfolding resolve
delete base key d =
    or_else d.stopped d
      (at_path (resolve base key) d (λ path. unlink path (d.files path) (d.remove_fault path) d))

abbrev pub content_at : Result (List ℕ) → Disk → Option (List ℕ)
content_at (err e) d = none
content_at (ok path) d = d.files path

abbrev pub same_path : Result (List ℕ) → Result (List ℕ) → Bool
same_path (ok p) (ok q) = same_bytes p q
same_path (ok p) (err e) = false
same_path (err e) r = false

abbrev pub is_accepted : Option String → Result (List ℕ) → Bool
is_accepted none (ok path) = true
is_accepted none (err e) = false
is_accepted (some e) r = false

-- The provider of a directory: two keys are the same where they resolve to one path.
abbrev pub local : List ℕ → Provider Disk
local base = record {
  put = put base;
  get = get base;
  delete = delete base;
  content = λ key d. content_at (resolve base key) d;
  accepts = λ key d. is_accepted d.stopped (resolve base key);
  same = λ j k. same_path (resolve base j) (resolve base k);
}
