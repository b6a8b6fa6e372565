-- ===== src/Storage/Interface.antt =====
-- internal/platform/storage/storage.go: the interface of the file storage that the library deletes
-- from and reads. A key is a list of bytes, as is a file.
use shiori_server.Prelude.{ℕ, ◌≡◌, String, Bool, true, Option, none, some, List, if◌then◌else◌}

-- What a call gives, or its error.
pub data Result (A : Type 0) : Type 0 where
  ok : A → Result A
  err : String → Result A

-- `S` is the state of a storage with whatever faults are ahead of it. `get` gives none for
-- ErrNotFound; `same` says that two keys name one file, and `accepts` that the context of the calls
-- is not done and the key is one that the storage allows.
pub record Provider (S : Type 0) : Type 0 where
  pub put : List ℕ → List ℕ → S → Option String × S
  pub get : List ℕ → S → Result (Option (List ℕ))
  pub delete : List ℕ → S → Option String × S
  pub content : List ℕ → S → Option (List ℕ)
  pub same : List ℕ → List ℕ → Bool
  pub accepts : List ℕ → S → Bool

-- What the comments of the interface promise: a call that gives no error has put, or removed, the
-- one file; to delete a file that is not there gives no error, where the call is accepted at all; a
-- deletion that fails changes nothing; what is read is the file.
pub record Laws {S : Type 0} (p : Provider S) : Type 0 where
  pub put_done :
      (k j : List ℕ) (v : List ℕ) (s : S)
      → (p.put k v s).0 ≡ none
      → p.content j (p.put k v s).1 ≡ (if p.same k j then some v else p.content j s)
  pub delete_done :
      (k j : List ℕ) (s : S)
      → (p.delete k s).0 ≡ none
      → p.content j (p.delete k s).1 ≡ (if p.same k j then none else p.content j s)
  pub delete_failed :
      (k j : List ℕ) (s : S) (e : String)
      → (p.delete k s).0 ≡ some e
      → p.content j (p.delete k s).1 ≡ p.content j s
  pub delete_missing :
      (k : List ℕ) (s : S) → p.accepts k s ≡ true → p.content k s ≡ none → (p.delete k s).0 ≡ none
  pub get_done : (k : List ℕ) (s : S) (v : Option (List ℕ)) → p.get k s ≡ ok v → v ≡ p.content k s
