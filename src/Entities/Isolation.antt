-- ===== src/Entities/Isolation.antt =====
-- mcp/toolbridge_mcp/tools/ over mcp/toolbridge_mcp/utils/requests.py: which entries of the caches the
-- tools may change.
use toolbridge_api.Prelude.{ℕ, String, ◌≡◌, ◌≢◌, refl, ◌∙◌, none, some, List, [], ◌∷◌, All}
use toolbridge_api.Errors.{Result}
use toolbridge_api.Dict.{Dict, lookup}
use toolbridge_api.Notes.Types.{Json}
use toolbridge_api.Requests.Types.{AccessToken, Settings, Method, Http, Jose, World}
use toolbridge_api.Requests.Isolation.{SameEntry, proceed-SameEntry, caller}
use toolbridge_api.NoteTools.Tools.{
  list_params, note_path, create_payload, update_payload, list_notes, create_note, update_note,
  delete_note,
}
use toolbridge_api.NotesUi.Listing.{list_notes_ui, delete_note_ui}
use toolbridge_api.Entities.Tasks.{task_path, create_task_payload, update_task_payload}
use toolbridge_api.Entities.Comments.{comment_path, create_comment_payload, update_comment_payload}
use toolbridge_api.Entities.Chats.{chat_path, create_chat_payload, update_chat_payload}
use toolbridge_api.Entities.ChatMessages.{
  chat_message_path, create_chat_message_payload, update_chat_message_payload,
}
use toolbridge_api.Entities.Resources.{
  list-SameEntry, get-SameEntry, patch-SameEntry, delete-SameEntry, archive-SameEntry,
  process-SameEntry,
}
use toolbridge_api.Entities.Answered.{answered-SameEntry, written-SameEntry}
use toolbridge_api.Entities.Tool.{ToolCall, Invocation}
use toolbridge_api.Entities.Calls.{after, after_calls}

module _ (loads : String → Result (Dict Json)) (loads_value : String → Result Json)
    (str_json : String → String) (http : Http) (jose : Jose) (settings : Settings)
    (j : String) where
  module _ (now later : ℕ) (token : Result AccessToken) where
    after-SameEntry :
        (c : ToolCall) (w : World http.State)
        → caller token ≢ some j
        → SameEntry j w (after loads loads_value str_json http jose settings now later token c w)
    unfolding after create_note update_note list_notes delete_note list_notes_ui delete_note_ui
    after-SameEntry (ToolCall.list r limit cursor include_deleted) w n =
        list-SameEntry loads loads_value str_json http jose settings j now later token r limit
          cursor include_deleted w n
    after-SameEntry (ToolCall.get r uid include_deleted) w n =
        get-SameEntry loads loads_value str_json http jose settings j now later token r uid
          include_deleted w n
    after-SameEntry (ToolCall.patch r uid updates) w n =
        patch-SameEntry loads loads_value str_json http jose settings j now later token r uid
          updates w n
    after-SameEntry (ToolCall.delete r uid) w n =
        delete-SameEntry loads loads_value str_json http jose settings j now later token r uid w n
    after-SameEntry (ToolCall.archive r uid) w n =
        archive-SameEntry loads loads_value str_json http jose settings j now later token r uid w n
    after-SameEntry (ToolCall.process r uid action metadata) w n =
        process-SameEntry loads loads_value str_json http jose settings j now later token r uid
          action metadata w n
    after-SameEntry (ToolCall.create_note title content tags additional_fields) w n =
        written-SameEntry http jose settings j now token Method.post "/v1/notes" none
          (create_payload loads loads_value title content tags additional_fields) w n
    after-SameEntry
          (ToolCall.create_task title description status priority due_date tags additional_fields) w
          n =
        written-SameEntry http jose settings j now token Method.post "/v1/tasks" none
          (create_task_payload loads loads_value title description status priority due_date tags
            additional_fields)
          w n
    after-SameEntry
          (ToolCall.create_comment content parent_type parent_uid author tags additional_fields) w
          n =
        written-SameEntry http jose settings j now token Method.post "/v1/comments" none
          (create_comment_payload loads loads_value content parent_type parent_uid author tags
            additional_fields)
          w n
    after-SameEntry
          (ToolCall.create_chat title description participants archived tags additional_fields) w
          n =
        written-SameEntry http jose settings j now token Method.post "/v1/chats" none
          (create_chat_payload loads loads_value title description participants archived tags
            additional_fields)
          w n
    after-SameEntry
          (ToolCall.create_chat_message chat_uid content sender message_type tags additional_fields)
          w n =
        written-SameEntry http jose settings j now token Method.post "/v1/chat_messages" none
          (create_chat_message_payload loads loads_value chat_uid content sender message_type tags
            additional_fields)
          w n
    after-SameEntry (ToolCall.update_note uid title content if_match additional_fields) w n =
        written-SameEntry http jose settings j now token Method.put (note_path uid) if_match
          (update_payload loads loads_value uid title content additional_fields) w n
    after-SameEntry (ToolCall.update_task uid title description status if_match additional_fields) w
          n =
        written-SameEntry http jose settings j now token Method.put (task_path uid) if_match
          (update_task_payload loads loads_value uid title description status additional_fields) w n
    after-SameEntry (ToolCall.update_comment uid content if_match additional_fields) w n =
        written-SameEntry http jose settings j now token Method.put (comment_path uid) if_match
          (update_comment_payload loads loads_value uid content additional_fields) w n
    after-SameEntry (ToolCall.update_chat uid title description if_match additional_fields) w n =
        written-SameEntry http jose settings j now token Method.put (chat_path uid) if_match
          (update_chat_payload loads loads_value uid title description additional_fields) w n
    after-SameEntry (ToolCall.update_chat_message uid content if_match additional_fields) w n =
        written-SameEntry http jose settings j now token Method.put (chat_message_path uid) if_match
          (update_chat_message_payload loads loads_value uid content additional_fields) w n
    after-SameEntry (ToolCall.list_notes_ui limit include_deleted f) w n =
        proceed-SameEntry j w
          (list_notes loads loads_value http jose settings now token limit none include_deleted w) _
          (answered-SameEntry http jose settings j now token Method.get "/v1/notes"
            (list_params limit none include_deleted) none none (λ r. r.notes) w n)
          (λ response u. (refl, refl))
    after-SameEntry (ToolCall.delete_note_ui uid limit include_deleted f) w n =
        proceed-SameEntry j w (delete_note loads loads_value http jose settings now token uid w) _
          (answered-SameEntry http jose settings j now token Method.delete (note_path uid) [] none
            none (λ r. r.note) w n)
          (λ item v.
            proceed-SameEntry j v
              (list_notes loads loads_value http jose settings later token limit none
                include_deleted v)
              _
              (answered-SameEntry http jose settings j later token Method.get "/v1/notes"
                (list_params limit none include_deleted) none none (λ r. r.notes) v n)
              (λ response u. (refl, refl)))

  -- Whatever the network answers and however the calls end: any sequence of calls of the tools for
  -- notes, tasks, comments, chats and chat messages, and of `list_notes_ui` and `delete_note_ui`, by
  -- any users but one, leaves the tenant and the JWT that are cached for that one as they were.
  pub tools-isolate :
      (calls : List Invocation) (w : World http.State)
      → All (λ (c : Invocation). caller c.token ≢ some j) calls
      → let w' = after_calls loads loads_value str_json http jose settings calls w in
        (lookup j w'.tenant_cache ≡ lookup j w.tenant_cache)
        × (lookup j w'.jwt_cache ≡ lookup j w.jwt_cache)
  unfolding after_calls
  tools-isolate [] w n = (refl, refl)
  tools-isolate (c ∷ calls) w (n, ns) =
      let first = after-SameEntry c.now c.later c.token c.tool w n in
      let rest =
        tools-isolate calls
          (after loads loads_value str_json http jose settings c.now c.later c.token c.tool w) ns in
      (rest.0 ∙ first.0, rest.1 ∙ first.1)
