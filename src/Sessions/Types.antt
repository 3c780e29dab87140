-- ===== src/Sessions/Types.antt =====
-- mcp/toolbridge_mcp/note_edit_sessions.py: a session, its hunks, and the dictionary of sessions.
use toolbridge_api.Prelude.{ℕ, String, Option, List}
use toolbridge_api.Dict.{Dict}
use toolbridge_api.Diff.Types.{Kind, Status}

pub record NoteEditHunkState : Type 0 where
  pub id : String
  pub kind : Kind
  pub original : String
  pub proposed : String
  pub status : Status
  pub revised_text : Option String
  pub orig_start : Option ℕ
  pub orig_end : Option ℕ
  pub new_start : Option ℕ
  pub new_end : Option ℕ

-- `created_at` is a time in microseconds.
pub record NoteEditSession : Type 0 where
  pub id : String
  pub note_uid : String
  pub base_version : ℕ
  pub title : String
  pub original_content : String
  pub proposed_content : String
  pub summary : Option String
  pub created_at : ℕ
  pub created_by : Option String
  pub hunks : List NoteEditHunkState
  pub current_content : Option String

-- `_SESSIONS`. A session is mutated only through this dictionary, so it is a value in it.
abbrev pub Sessions : Type 0
Sessions = Dict NoteEditSession
