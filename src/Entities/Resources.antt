-- ===== src/Entities/Resources.antt =====
-- mcp/toolbridge_mcp/tools/ over mcp/toolbridge_mcp/utils/requests.py: the tools that every
-- resource has, and the caches.
use Prim.Native.String.{◌++◌ as ◌<>◌}
use toolbridge_api.Prelude.{Bool, Option, ℕ, String, ◌≢◌, none, some, []}
use toolbridge_api.Errors.{Result}
use toolbridge_api.Dict.{Dict}
use toolbridge_api.Notes.Types.{Json}
use toolbridge_api.Requests.Types.{AccessToken, Settings, Method, Http, Jose, World}
use toolbridge_api.Requests.Isolation.{SameEntry, caller}
use toolbridge_api.NoteTools.Tools.{
  Fields, deleted_param, list_params, note_path, fields_of, list_notes, get_note, patch_note,
  delete_note, archive_note, process_note,
}
use toolbridge_api.Entities.Shapes.{process_payload}
use toolbridge_api.Entities.Tasks.{task_path}
use toolbridge_api.Entities.Comments.{comment_path}
use toolbridge_api.Entities.Chats.{chat_path}
use toolbridge_api.Entities.ChatMessages.{chat_message_path}
use toolbridge_api.Entities.Answered.{answered-SameEntry, written-SameEntry}
use toolbridge_api.Entities.Tool.{Resource, ToolCall}
use toolbridge_api.Entities.Calls.{after}

module _ (loads : String → Result (Dict Json)) (loads_value : String → Result Json)
    (str_json : String → String) (http : Http) (jose : Jose) (settings : Settings)
    (j : String) where
  module _ (now later : ℕ) (token : Result AccessToken) where
    pub list-SameEntry :
        (r : Resource) (limit : ℕ) (cursor : Option String) (include_deleted : Bool)
        (w : World http.State)
        → caller token ≢ some j
        → SameEntry j w (
            after loads loads_value str_json http jose settings now later token
              (ToolCall.list r limit cursor include_deleted)
              w)
    unfolding after list_notes
    list-SameEntry Resource.notes limit cursor include_deleted w n =
        answered-SameEntry http jose settings j now token Method.get "/v1/notes"
          (list_params limit cursor include_deleted) none none (λ r. r.notes) w n
    list-SameEntry Resource.tasks limit cursor include_deleted w n =
        answered-SameEntry http jose settings j now token Method.get "/v1/tasks"
          (list_params limit cursor include_deleted) none none (λ r. r.notes) w n
    list-SameEntry Resource.comments limit cursor include_deleted w n =
        answered-SameEntry http jose settings j now token Method.get "/v1/comments"
          (list_params limit cursor include_deleted) none none (λ r. r.notes) w n
    list-SameEntry Resource.chats limit cursor include_deleted w n =
        answered-SameEntry http jose settings j now token Method.get "/v1/chats"
          (list_params limit cursor include_deleted) none none (λ r. r.notes) w n
    list-SameEntry Resource.chat_messages limit cursor include_deleted w n =
        answered-SameEntry http jose settings j now token Method.get "/v1/chat_messages"
          (list_params limit cursor include_deleted) none none (λ r. r.notes) w n

    pub get-SameEntry :
        (r : Resource) (uid : String) (include_deleted : Bool) (w : World http.State)
        → caller token ≢ some j
        → SameEntry j w (
            after loads loads_value str_json http jose settings now later token
              (ToolCall.get r uid include_deleted)
              w)
    unfolding after get_note
    get-SameEntry Resource.notes uid include_deleted w n =
        answered-SameEntry http jose settings j now token Method.get (note_path uid)
          (deleted_param include_deleted) none none (λ r. r.note) w n
    get-SameEntry Resource.tasks uid include_deleted w n =
        answered-SameEntry http jose settings j now token Method.get (task_path uid)
          (deleted_param include_deleted) none none (λ r. r.note) w n
    get-SameEntry Resource.comments uid include_deleted w n =
        answered-SameEntry http jose settings j now token Method.get (comment_path uid)
          (deleted_param include_deleted) none none (λ r. r.note) w n
    get-SameEntry Resource.chats uid include_deleted w n =
        answered-SameEntry http jose settings j now token Method.get (chat_path uid)
          (deleted_param include_deleted) none none (λ r. r.note) w n
    get-SameEntry Resource.chat_messages uid include_deleted w n =
        answered-SameEntry http jose settings j now token Method.get (chat_message_path uid)
          (deleted_param include_deleted) none none (λ r. r.note) w n

    pub patch-SameEntry :
        (r : Resource) (uid : String) (updates : Fields) (w : World http.State)
        → caller token ≢ some j
        → SameEntry j w (
            after loads loads_value str_json http jose settings now later token
              (ToolCall.patch r uid updates)
              w)
    unfolding after patch_note
    patch-SameEntry Resource.notes uid updates w n =
        written-SameEntry http jose settings j now token Method.patch (note_path uid) none
          (fields_of loads loads_value "updates" updates) w n
    patch-SameEntry Resource.tasks uid updates w n =
        written-SameEntry http jose settings j now token Method.patch (task_path uid) none
          (fields_of loads loads_value "updates" updates) w n
    patch-SameEntry Resource.comments uid updates w n =
        written-SameEntry http jose settings j now token Method.patch (comment_path uid) none
          (fields_of loads loads_value "updates" updates) w n
    patch-SameEntry Resource.chats uid updates w n =
        written-SameEntry http jose settings j now token Method.patch (chat_path uid) none
          (fields_of loads loads_value "updates" updates) w n
    patch-SameEntry Resource.chat_messages uid updates w n =
        written-SameEntry http jose settings j now token Method.patch (chat_message_path uid) none
          (fields_of loads loads_value "updates" updates) w n

    pub delete-SameEntry :
        (r : Resource) (uid : String) (w : World http.State)
        → caller token ≢ some j
        → SameEntry j w (
            after loads loads_value str_json http jose settings now later token
              (ToolCall.delete r uid)
              w)
    unfolding after delete_note
    delete-SameEntry Resource.notes uid w n =
        answered-SameEntry http jose settings j now token Method.delete (note_path uid) [] none none
          (λ r. r.note) w n
    delete-SameEntry Resource.tasks uid w n =
        answered-SameEntry http jose settings j now token Method.delete (task_path uid) [] none none
          (λ r. r.note) w n
    delete-SameEntry Resource.comments uid w n =
        answered-SameEntry http jose settings j now token Method.delete (comment_path uid) [] none
          none (λ r. r.note) w n
    delete-SameEntry Resource.chats uid w n =
        answered-SameEntry http jose settings j now token Method.delete (chat_path uid) [] none none
          (λ r. r.note) w n
    delete-SameEntry Resource.chat_messages uid w n =
        answered-SameEntry http jose settings j now token Method.delete (chat_message_path uid) []
          none none (λ r. r.note) w n

    pub archive-SameEntry :
        (r : Resource) (uid : String) (w : World http.State)
        → caller token ≢ some j
        → SameEntry j w (
            after loads loads_value str_json http jose settings now later token
              (ToolCall.archive r uid)
              w)
    unfolding after archive_note
    archive-SameEntry Resource.notes uid w n =
        answered-SameEntry http jose settings j now token Method.post (note_path uid <> "/archive")
          [] (some []) none (λ r. r.note) w n
    archive-SameEntry Resource.tasks uid w n =
        answered-SameEntry http jose settings j now token Method.post (task_path uid <> "/archive")
          [] (some []) none (λ r. r.note) w n
    archive-SameEntry Resource.comments uid w n =
        answered-SameEntry http jose settings j now token Method.post
          (comment_path uid <> "/archive") [] (some []) none (λ r. r.note) w n
    archive-SameEntry Resource.chats uid w n =
        answered-SameEntry http jose settings j now token Method.post (chat_path uid <> "/archive")
          [] (some []) none (λ r. r.note) w n
    archive-SameEntry Resource.chat_messages uid w n =
        answered-SameEntry http jose settings j now token Method.post
          (chat_message_path uid <> "/archive") [] (some []) none (λ r. r.note) w n

    pub process-SameEntry :
        (r : Resource) (uid : String) (action : String) (metadata : Option Json)
        (w : World http.State)
        → caller token ≢ some j
        → SameEntry j w (
            after loads loads_value str_json http jose settings now later token
              (ToolCall.process r uid action metadata)
              w)
    unfolding after process_note
    process-SameEntry Resource.notes uid action metadata w n =
        written-SameEntry http jose settings j now token Method.post (note_path uid <> "/process")
          none (process_payload loads loads_value action metadata) w n
    process-SameEntry Resource.tasks uid action metadata w n =
        written-SameEntry http jose settings j now token Method.post (task_path uid <> "/process")
          none (process_payload loads loads_value action metadata) w n
    process-SameEntry Resource.comments uid action metadata w n =
        written-SameEntry http jose settings j now token Method.post
          (comment_path uid <> "/process") none (process_payload loads loads_value action metadata)
          w n
    process-SameEntry Resource.chats uid action metadata w n =
        written-SameEntry http jose settings j now token Method.post (chat_path uid <> "/process")
          none (process_payload loads loads_value action metadata) w n
    process-SameEntry Resource.chat_messages uid action metadata w n =
        written-SameEntry http jose settings j now token Method.post
          (chat_message_path uid <> "/process") none
          (process_payload loads loads_value action metadata) w n
