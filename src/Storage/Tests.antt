-- ===== src/Storage/Tests.antt =====
-- A directory and keys in it, and the theorems about the local file system at them.
use shiori_server.Prelude.{ℕ, ◌≡◌, refl, String, true, false, List, [], ◌∷◌, ◌++◌, ◌⊎◌, All}
use shiori_server.Storage.Interface.{ok, err}
use shiori_server.Storage.Paths.{has_dots, below_root}
use shiori_server.Storage.Local.{resolve}
use shiori_server.Storage.Safety.{Plain, resolve_lem}

-- /data
abbrev data_dir : List ℕ
data_dir = b'd' ∷ b'a' ∷ b't' ∷ b'a' ∷ []

-- a//./b
abbrev key : List ℕ
key = b'a' ∷ b'/' ∷ b'/' ∷ b'.' ∷ b'/' ∷ b'b' ∷ []

resolved_key :
    resolve (below_root (data_dir ∷ [])) key
    ≡ ok (below_root (data_dir ∷ (b'a' ∷ []) ∷ (b'b' ∷ []) ∷ []))
unfolding resolve
resolved_key = refl

resolve_lem_example :
    ((has_dots key ≡ true) × ((x : String) × (resolve (below_root (data_dir ∷ [])) key ≡ err x)))
    ⊎ ((has_dots key ≡ false)
        × ((fs : List (List ℕ)) × All Plain fs
            × (resolve (below_root (data_dir ∷ [])) key
                ≡ ok (below_root (data_dir ∷ []) ++ below_root fs))))
resolve_lem_example = resolve_lem data_dir [] key ((refl, refl, refl), tt)
