-- ===== src/NotesUi/Api.antt =====
-- The tools of mcp/toolbridge_mcp/tools/notes.py as the edit tools use them: an interface over the
-- state of everything behind them.
use toolbridge_api.Prelude.{ℕ, String, Bool, Option}
use toolbridge_api.Errors.{Result}
use toolbridge_api.Dict.{Dict}
use toolbridge_api.Notes.Types.{Json, Note}

-- the arguments of `update_note`
pub record Update : Type 0 where
  pub uid : String
  pub title : Json
  pub content : String
  pub if_match : Option ℕ
  pub additional_fields : Option (Dict Json)

pub record Api : Type 1 where
  pub State : Type 0
  -- `_get_note(uid=uid, include_deleted=include_deleted)`
  pub get_note : String → Bool → State → Result Note × State
  -- `_update_note(uid=…, …)`
  pub update_note : Update → State → Result Note × State
