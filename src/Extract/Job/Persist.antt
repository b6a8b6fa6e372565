-- ===== src/Extract/Job/Persist.antt =====
-- internal/jobs/extract.go: how the handler of NewExtractHandler stores the result. The repository,
-- the decoding of the result and the import of its chapters are given.
use shiori_server.Prelude.{
  ℕ, String, Bool, true, false, Option, none, some, List, [], ◌∷◌, ◌++◌, str_eq, if◌then◌else◌,
}
use shiori_server.Extract.Visit.{Action, navigated, closed_session}
use shiori_server.Extract.Merge.{Object}

-- ExtractResponse, without what is copied from the payload and from the result.
pub record ExtractResponse : Type 0 where
  pub ai_output : Object
  pub warnings : List String
  pub saved : Bool
  pub media_id : Option String

-- What importExtractedUnits meets at one unit: Navigate fails; Snapshot fails in the session that it
-- opened; or the page is read in a session, so many saved images are reported, and there are warnings
-- of the images, the video or the stored chapter.
pub data UnitImport : Type 0 where
  not_opened : String → UnitImport
  not_read : ℕ → String → UnitImport
  taken : ℕ → ℕ → List String → UnitImport

abbrev pub unit_warnings : UnitImport → List String
unit_warnings (not_opened warning) = warning ∷ []
unit_warnings (not_read session warning) = warning ∷ []
unit_warnings (taken session images warnings) = warnings

-- The session is closed before the answer of Snapshot is looked at.
abbrev pub unit_actions : UnitImport → List Action
unit_actions (not_opened warning) = []
unit_actions (not_read session warning) = navigated session ∷ closed_session session ∷ []
unit_actions (taken session images warnings) = navigated session ∷ closed_session session ∷ []

abbrev pub import_warnings : List UnitImport → List String
import_warnings [] = []
import_warnings (u ∷ us) = unit_warnings u ++ import_warnings us

unfoldable pub import_actions : List UnitImport → List Action
import_actions [] = []
import_actions (u ∷ us) = unit_actions u ++ import_actions us

-- `media_type` is the type that a result decodes to, none where it is no MediaCreateRequest;
-- `store` gives the ID of a medium stored with a type, or the error; `units` gives what
-- importExtractedUnits meets, unit after unit, none where the job has no repository or storage for it;
-- `warnings` are those of the last page.
pub record Saving : Type 0 where
  pub target : String
  pub media_type : Object → Option String
  pub store : String → Object → Option String × String
  pub units : Option (Object → List UnitImport)
  pub warnings : List String

abbrev pub is_stored : String → Bool
is_stored target = if str_eq target "manga" then true else str_eq target "anime"

-- The type that a request without one gets.
abbrev pub type_for : String → String → String
type_for target media_type =
    if str_eq media_type "" then if str_eq target "anime" then "anime" else "manga" else media_type

abbrev imported : Option (Object → List UnitImport) → Object → List UnitImport
imported none result = []
imported (some units) result = units result

abbrev pub unsaved : Saving → Object → String → ExtractResponse
unsaved s result warning = record {
  ai_output = result;
  warnings = s.warnings ++ warning ∷ [];
  saved = false;
  media_id = none;
}

abbrev pub store_answer :
    Saving → Object → Option String × String → ExtractResponse × Option String × List UnitImport
store_answer s result (none, error) =
    (unsaved s result "failed to save to database", some error, [])
store_answer s result (some id, error) = (
  record {
    ai_output = result;
    warnings = s.warnings ++ import_warnings (imported s.units result);
    saved = true;
    media_id = some id;
  },
  none,
  imported s.units result,
)

abbrev pub store_decoded :
    Saving → Object → Option String → ExtractResponse × Option String × List UnitImport
store_decoded s result none =
    (unsaved s result "failed to unmarshal extracted JSON", some "unmarshal error", [])
store_decoded s result (some media_type) =
    store_answer s result (s.store (type_for s.target media_type) result)

-- The response that is sent, the error that the handler returns, and the units that were imported.
unfoldable pub persist : Saving → Object → ExtractResponse × Option String × List UnitImport
persist s result =
    if is_stored s.target
    then store_decoded s result (s.media_type result)
    else (unsaved s result "unsupported target for persistence", some "unsupported target", [])
