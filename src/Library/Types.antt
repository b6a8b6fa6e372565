-- ===== src/Library/Types.antt =====
-- internal/library/media.go and the tables of migrations/sqlite. An id is a ULID, 26 characters of
-- one alphabet: it stands as the number that it writes, which keeps the order. A nil slice and an
-- empty one are the same list. The names of collections and the storage keys, whose characters the
-- code looks at, are lists of bytes.
pub use shiori_server.Storage.Interface.{Result, ok, err}
use shiori_server.Prelude.{ℕ, String, Bool, Option, none, some, List}

pub record MediaRequest : Type 0 where
  pub source_url : String
  pub kind : String
  pub title : String
  pub alternative_titles : List String
  pub description : String
  pub cover_url : String
  pub authors : List String
  pub artists : List String
  pub status : String
  pub genres : List String

pub record Media : Type 0 where
  pub id : ℕ
  pub content : MediaRequest
  pub created_at : ℕ
  pub updated_at : ℕ

pub record ChapterImage : Type 0 where
  pub position : ℕ
  pub storage_key : List ℕ
  pub content_type : String

pub record ChapterRequest : Type 0 where
  pub media_id : ℕ
  pub number : String
  pub title : String
  pub source_url : String
  pub video_url : String
  pub images : List ChapterImage

pub record Chapter : Type 0 where
  pub id : ℕ
  pub media_id : ℕ
  pub number : String
  pub title : String
  pub source_url : String
  pub video_url : String
  pub images : List ChapterImage
  pub created_at : ℕ

pub record Collection : Type 0 where
  pub id : ℕ
  pub name : List ℕ
  pub description : String
  pub created_at : ℕ
  pub updated_at : ℕ

-- `progress` is counted in steps of 1/1000000.
pub record HistoryEntry : Type 0 where
  pub chapter_id : ℕ
  pub media_id : ℕ
  pub title : String
  pub number : String
  pub position : ℕ
  pub progress : ℕ
  pub completed : Bool
  pub updated_at : ℕ

pub record Download : Type 0 where
  pub chapter_id : ℕ
  pub media_id : ℕ
  pub title : String
  pub number : String
  pub image_count : ℕ
  pub created_at : ℕ

-- The rows of the tables that are not one of the above: chapters without their images, and the
-- images, members of collections and entries of the history with their references.
pub record ImageRow : Type 0 where
  pub chapter_id : ℕ
  pub image : ChapterImage

pub record MemberRow : Type 0 where
  pub collection_id : ℕ
  pub media_id : ℕ
  pub added_at : ℕ

pub record HistoryRow : Type 0 where
  pub chapter_id : ℕ
  pub position : ℕ
  pub progress : ℕ
  pub completed : Bool
  pub updated_at : ℕ

pub record ChapterRow : Type 0 where
  pub id : ℕ
  pub media_id : ℕ
  pub number : String
  pub title : String
  pub source_url : String
  pub video_url : String
  pub created_at : ℕ

pub record Database : Type 0 where
  pub media : List Media
  pub chapters : List ChapterRow
  pub images : List ImageRow
  pub collections : List Collection
  pub members : List MemberRow
  pub history : List HistoryRow

-- What a call takes from outside: the clock, the ULID that is made, and the error of the driver for
-- the first and for a later statement (none: it runs).
pub record Call : Type 0 where
  pub now : ℕ
  pub ulid : ℕ
  pub fault : Option String
  pub fault' : Option String

-- A statement that a fault of the driver stops, with the database as it was.
abbrev pub unless :
    {A : Type 0} → Option String → Database → Result A × Database → Result A × Database
unless none d r = r
unless (some e) d r = (err e, d)

-- A query that a fault stops.
abbrev pub query : {A : Type 0} → Option String → Result A → Result A
query none r = r
query (some e) r = err e
