-- ===== src/Entities/Calls.antt =====
-- Calls of the tools of mcp/toolbridge_mcp/tools/: those of notes.py, tasks.py, comments.py, chats.py
-- and chat_messages.py, by name and arguments, one after the other.
use toolbridge_api.Prelude.{ℕ, String, List, [], ◌∷◌}
use toolbridge_api.Errors.{Result}
use toolbridge_api.Dict.{Dict}
use toolbridge_api.Notes.Types.{Json}
use toolbridge_api.Requests.Types.{AccessToken, Settings, Http, Jose, World}
use toolbridge_api.Entities.Tool.{Resource, ToolCall, Invocation}
use toolbridge_api.NotesUi.Listing.{list_notes_ui, delete_note_ui}
use toolbridge_api.NoteTools.Tools.{
  list_notes, get_note, create_note, update_note, patch_note, delete_note, archive_note,
  process_note,
}
use toolbridge_api.Entities.Tasks.{
  list_tasks, get_task, create_task, update_task, patch_task, delete_task, archive_task,
  process_task,
}
use toolbridge_api.Entities.Comments.{
  list_comments, get_comment, create_comment, update_comment, patch_comment, delete_comment,
  archive_comment, process_comment,
}
use toolbridge_api.Entities.Chats.{
  list_chats, get_chat, create_chat, update_chat, patch_chat, delete_chat, archive_chat,
  process_chat,
}
use toolbridge_api.Entities.ChatMessages.{
  list_chat_messages, get_chat_message, create_chat_message, update_chat_message,
  patch_chat_message, delete_chat_message, archive_chat_message, process_chat_message,
}

module _ (loads : String → Result (Dict Json)) (loads_value : String → Result Json)
    (str_json : String → String) (http : Http) (jose : Jose) (settings : Settings) where
  -- what the tool leaves of the caches and the network
  module _ (now later : ℕ) (token : Result AccessToken) where
    unfoldable pub after : ToolCall → World http.State → World http.State
    after (ToolCall.list Resource.notes limit cursor include_deleted) w =
        (list_notes loads loads_value http jose settings now token limit cursor include_deleted w).1
    after (ToolCall.list Resource.tasks limit cursor include_deleted) w =
        (list_tasks loads loads_value http jose settings now token limit cursor include_deleted w).1
    after (ToolCall.list Resource.comments limit cursor include_deleted) w =
        (list_comments loads loads_value http jose settings now token limit cursor include_deleted
          w).1
    after (ToolCall.list Resource.chats limit cursor include_deleted) w =
        (list_chats loads loads_value http jose settings now token limit cursor include_deleted w).1
    after (ToolCall.list Resource.chat_messages limit cursor include_deleted) w =
        (list_chat_messages loads loads_value http jose settings now token limit cursor
          include_deleted w).1
    after (ToolCall.get Resource.notes uid include_deleted) w =
        (get_note loads loads_value http jose settings now token uid include_deleted w).1
    after (ToolCall.get Resource.tasks uid include_deleted) w =
        (get_task loads loads_value http jose settings now token uid include_deleted w).1
    after (ToolCall.get Resource.comments uid include_deleted) w =
        (get_comment loads loads_value http jose settings now token uid include_deleted w).1
    after (ToolCall.get Resource.chats uid include_deleted) w =
        (get_chat loads loads_value http jose settings now token uid include_deleted w).1
    after (ToolCall.get Resource.chat_messages uid include_deleted) w =
        (get_chat_message loads loads_value http jose settings now token uid include_deleted w).1
    after (ToolCall.patch Resource.notes uid updates) w =
        (patch_note loads loads_value http jose settings now token uid updates w).1
    after (ToolCall.patch Resource.tasks uid updates) w =
        (patch_task loads loads_value http jose settings now token uid updates w).1
    after (ToolCall.patch Resource.comments uid updates) w =
        (patch_comment loads loads_value http jose settings now token uid updates w).1
    after (ToolCall.patch Resource.chats uid updates) w =
        (patch_chat loads loads_value http jose settings now token uid updates w).1
    after (ToolCall.patch Resource.chat_messages uid updates) w =
        (patch_chat_message loads loads_value http jose settings now token uid updates w).1
    after (ToolCall.delete Resource.notes uid) w =
        (delete_note loads loads_value http jose settings now token uid w).1
    after (ToolCall.delete Resource.tasks uid) w =
        (delete_task loads loads_value http jose settings now token uid w).1
    after (ToolCall.delete Resource.comments uid) w =
        (delete_comment loads loads_value http jose settings now token uid w).1
    after (ToolCall.delete Resource.chats uid) w =
        (delete_chat loads loads_value http jose settings now token uid w).1
    after (ToolCall.delete Resource.chat_messages uid) w =
        (delete_chat_message loads loads_value http jose settings now token uid w).1
    after (ToolCall.archive Resource.notes uid) w =
        (archive_note loads loads_value http jose settings now token uid w).1
    after (ToolCall.archive Resource.tasks uid) w =
        (archive_task loads loads_value http jose settings now token uid w).1
    after (ToolCall.archive Resource.comments uid) w =
        (archive_comment loads loads_value http jose settings now token uid w).1
    after (ToolCall.archive Resource.chats uid) w =
        (archive_chat loads loads_value http jose settings now token uid w).1
    after (ToolCall.archive Resource.chat_messages uid) w =
        (archive_chat_message loads loads_value http jose settings now token uid w).1
    after (ToolCall.process Resource.notes uid action metadata) w =
        (process_note loads loads_value http jose settings now token uid action metadata w).1
    after (ToolCall.process Resource.tasks uid action metadata) w =
        (process_task loads loads_value http jose settings now token uid action metadata w).1
    after (ToolCall.process Resource.comments uid action metadata) w =
        (process_comment loads loads_value http jose settings now token uid action metadata w).1
    after (ToolCall.process Resource.chats uid action metadata) w =
        (process_chat loads loads_value http jose settings now token uid action metadata w).1
    after (ToolCall.process Resource.chat_messages uid action metadata) w =
        (process_chat_message loads loads_value http jose settings now token uid action metadata
          w).1
    after (ToolCall.create_note title content tags additional_fields) w =
        (create_note loads loads_value http jose settings now token title content tags
          additional_fields w).1
    after (ToolCall.create_task title description status priority due_date tags additional_fields)
          w =
        (create_task loads loads_value http jose settings now token title description status
          priority due_date tags additional_fields w).1
    after (ToolCall.create_comment content parent_type parent_uid author tags additional_fields) w =
        (create_comment loads loads_value http jose settings now token content parent_type
          parent_uid author tags additional_fields w).1
    after (ToolCall.create_chat title description participants archived tags additional_fields) w =
        (create_chat loads loads_value http jose settings now token title description participants
          archived tags additional_fields w).1
    after (ToolCall.create_chat_message chat_uid content sender message_type tags additional_fields)
          w =
        (create_chat_message loads loads_value http jose settings now token chat_uid content sender
          message_type tags additional_fields w).1
    after (ToolCall.update_note uid title content if_match additional_fields) w =
        (update_note loads loads_value http jose settings now token uid title content if_match
          additional_fields w).1
    after (ToolCall.update_task uid title description status if_match additional_fields) w =
        (update_task loads loads_value http jose settings now token uid title description status
          if_match additional_fields w).1
    after (ToolCall.update_comment uid content if_match additional_fields) w =
        (update_comment loads loads_value http jose settings now token uid content if_match
          additional_fields w).1
    after (ToolCall.update_chat uid title description if_match additional_fields) w =
        (update_chat loads loads_value http jose settings now token uid title description if_match
          additional_fields w).1
    after (ToolCall.update_chat_message uid content if_match additional_fields) w =
        (update_chat_message loads loads_value http jose settings now token uid content if_match
          additional_fields w).1
    after (ToolCall.list_notes_ui limit include_deleted f) w =
        (list_notes_ui loads loads_value str_json http jose settings now later token limit
          include_deleted f w).1
    after (ToolCall.delete_note_ui uid limit include_deleted f) w =
        (delete_note_ui loads loads_value str_json http jose settings now later token uid limit
          include_deleted f w).1

  unfoldable pub after_calls : List Invocation → World http.State → World http.State
  after_calls [] w = w
  after_calls (c ∷ calls) w = after_calls calls (after c.now c.later c.token c.tool w)
