-- ===== src/Entities/Tool.antt =====
-- Calls of the tools of mcp/toolbridge_mcp/tools/: notes.py, tasks.py, comments.py, chats.py and
-- chat_messages.py, and those of notes_ui.py that keep no session, by name and
-- arguments.
use toolbridge_api.Prelude.{ℕ, String, Bool, Option}
use toolbridge_api.Errors.{Result}
use toolbridge_api.Notes.Types.{Json}
use toolbridge_api.Requests.Types.{AccessToken}
use toolbridge_api.NoteTools.Tools.{Fields}
use toolbridge_api.Ui.Resources.{UiFormat}

pub data Resource : Type 0 where
  notes tasks comments chats chat_messages : Resource

-- a tool with its arguments
pub data ToolCall : Type 0 where
  list : Resource → ℕ → Option String → Bool → ToolCall
  get : Resource → String → Bool → ToolCall
  patch : Resource → String → Fields → ToolCall
  delete archive : Resource → String → ToolCall
  process : Resource → String → String → Option Json → ToolCall
  list_notes_ui : ℕ → Bool → UiFormat → ToolCall
  delete_note_ui : String → ℕ → Bool → UiFormat → ToolCall
  create_note : String → String → Option Json → Option Fields → ToolCall
  create_task :
      String
      → Option String
      → Option String
      → Option String
      → Option String
      → Option Json
      → Option Fields
      → ToolCall
  create_comment : String → String → String → Option String → Option Json → Option Fields → ToolCall
  create_chat : String → Option String → Option Json → Bool → Option Json → Option Fields → ToolCall
  create_chat_message :
      String → String → Option String → Option String → Option Json → Option Fields → ToolCall
  update_note : String → Json → String → Option ℕ → Option Fields → ToolCall
  update_task :
      String → String → Option String → Option String → Option ℕ → Option Fields → ToolCall
  update_comment : String → String → Option ℕ → Option Fields → ToolCall
  update_chat : String → String → Option String → Option ℕ → Option Fields → ToolCall
  update_chat_message : String → String → Option ℕ → Option Fields → ToolCall

-- a call at a time, with the time of its second request, and what `get_access_token()` gives in it
pub record Invocation : Type 0 where
  pub now : ℕ
  pub later : ℕ
  pub token : Result AccessToken
  pub tool : ToolCall
