-- ===== src/Queue/Table.antt =====
-- The table `job_queue` of migrations/sqlite/000001_init.up.sql, and the statements that
-- internal/platform/queue/sqlitequeue/queue.go runs on it, as functions of the rows.
pub mod Laws
use shiori_server.Prelude.{
  ℕ, suc, String, Bool, false, ◌||◌, Option, none, some, List, [], ◌∷◌, ◌==◌, str_eq, if◌then◌else◌,
}
use shiori_server.Queue.Types.{JobStatus}

pub record Row : Type 0 where
  pub id : ℕ
  pub idempotency_key : String
  pub job_type : String
  pub payload : String
  pub status : JobStatus
  pub priority : ℕ
  pub attempts : ℕ
  pub max_attempts : ℕ
  pub lease_token : Option String
  pub leased_at : Option ℕ
  pub heartbeat_at : Option ℕ
  pub scheduled_at : ℕ
  pub created_at : ℕ
  pub updated_at : ℕ
  pub error : Option String

-- `next_id` is what AUTOINCREMENT gives out next.
pub record Table : Type 0 where
  pub rows : List Row
  pub next_id : ℕ

-- What a call takes from outside: the clock, the token that uuid.New gives, the error that the
-- driver returns for the first and for the second statement (none: it runs), and the row that
-- SQLite prefers among those that ORDER BY leaves equal.
pub record Call : Type 0 where
  pub now : ℕ
  pub lease : String
  pub fault : Option String
  pub fault' : Option String
  pub prefer : Row → Row → Bool

-- UPDATE job_queue SET … WHERE test: the new rows and RowsAffected.
abbrev pub update_where : (Row → Bool) → (Row → Row) → List Row → List Row
update_where test f [] = []
update_where test f (r ∷ rs) = (if test r then f r else r) ∷ update_where test f rs

abbrev pub affected : (Row → Bool) → List Row → ℕ
affected test [] = 0
affected test (r ∷ rs) = if test r then suc (affected test rs) else affected test rs

-- SELECT … WHERE id = ?
abbrev pub find_id : ℕ → List Row → Option Row
find_id i [] = none
find_id i (r ∷ rs) = if r.id == i then some r else find_id i rs

abbrev pub has_key : String → List Row → Bool
has_key k [] = false
has_key k (r ∷ rs) = str_eq r.idempotency_key k || has_key k rs

abbrev pub has_type : List String → String → Bool
has_type [] t = false
has_type (x ∷ xs) t = str_eq x t || has_type xs t
