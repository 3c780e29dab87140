-- ===== src/Entities/Tasks.antt =====
-- mcp/toolbridge_mcp/tools/tasks.py: the records and the tools.
use Prim.Native.String.{◌++◌ as ◌<>◌}
use toolbridge_api.Prelude.{ℕ, String, Bool, Option, [], ◌∷◌}
use toolbridge_api.Errors.{Result, ◌>>=◌}
use toolbridge_api.Dict.{Dict}
use toolbridge_api.Notes.Types.{Json, Note, NotesListResponse}
use toolbridge_api.Requests.Types.{AccessToken, Settings, Http, Jose, Action}
use toolbridge_api.Requests.Calls.{call_post}
use toolbridge_api.NoteTools.Tools.{Fields, add_fields, add_value}
use toolbridge_api.Entities.Shapes.{
  add_text, entity, list_at, get_at, create_at, update_at, patch_at, delete_at, patch_payload,
  process_payload,
}

-- The record has the fields of a note.
abbrev pub Task : Type 0
Task = Note

abbrev pub TasksListResponse : Type 0
TasksListResponse = NotesListResponse

abbrev pub task_path : String → String
task_path uid = "/v1/tasks/" <> uid

module _ (loads : String → Result (Dict Json)) (loads_value : String → Result Json) where
  abbrev pub create_task_payload :
      String
      → Option String
      → Option String
      → Option String
      → Option String
      → Option Json
      → Option Fields
      → Result (Dict Json)
  create_task_payload title description status priority due_date tags additional_fields =
      (add_value loads loads_value "tags"
          (add_text "dueDate" due_date (
            add_text "priority" priority (
              add_text "status" status
                (add_text "description" description (("title", Json.text title) ∷ [])))))
          tags
        >>= λ payload. add_fields loads loads_value payload additional_fields)

  abbrev pub update_task_payload :
      String → String → Option String → Option String → Option Fields → Result (Dict Json)
  update_task_payload uid title description status additional_fields =
      add_fields loads loads_value
        (add_text "status" status (
          add_text "description" description
            (("uid", Json.text uid) ∷ ("title", Json.text title) ∷ [])))
        additional_fields

  module _ (http : Http) (jose : Jose) (settings : Settings) (now : ℕ)
      (token : Result AccessToken) where
    abbrev pub list_tasks : ℕ → Option String → Bool → Action http.State TasksListResponse
    list_tasks = list_at http jose settings now token "/v1/tasks"

    abbrev pub get_task : String → Bool → Action http.State Task
    get_task uid = get_at http jose settings now token (task_path uid)

    abbrev pub create_task :
        String
        → Option String
        → Option String
        → Option String
        → Option String
        → Option Json
        → Option Fields
        → Action http.State Task
    create_task title description status priority due_date tags additional_fields =
        create_at http jose settings now token "/v1/tasks"
          (create_task_payload title description status priority due_date tags additional_fields)

    abbrev pub update_task :
        String
        → String
        → Option String
        → Option String
        → Option ℕ
        → Option Fields
        → Action http.State Task
    update_task uid title description status if_match additional_fields =
        update_at http jose settings now token (task_path uid)
          (update_task_payload uid title description status additional_fields) if_match

    abbrev pub patch_task : String → Fields → Action http.State Task
    patch_task uid updates =
        patch_at http jose settings now token (task_path uid)
          (patch_payload loads loads_value updates)

    abbrev pub delete_task : String → Action http.State Task
    delete_task uid = delete_at http jose settings now token (task_path uid)

    abbrev pub archive_task : String → Action http.State Task
    archive_task uid =
        entity (call_post http jose settings now token (task_path uid <> "/archive") [])

    abbrev pub process_task : String → String → Option Json → Action http.State Task
    process_task uid action metadata =
        create_at http jose settings now token (task_path uid <> "/process")
          (process_payload loads loads_value action metadata)
