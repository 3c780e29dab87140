-- ===== src/Tests/EntityRuns.antt =====
-- mcp/toolbridge_mcp/tools/ against a server that answers every request alike.
use toolbridge_api.Prelude.{String, ◌≡◌, refl, true, false, none, some, List, [], ◌∷◌}
use toolbridge_api.Errors.{Exc, ok, err, exc_text}
use toolbridge_api.Dict.{lookup, insert}
use toolbridge_api.Notes.Types.{Json}
use toolbridge_api.Ui.Resources.{UiFormat}
use toolbridge_api.NoteTools.Tools.{Fields}
use toolbridge_api.Entities.Tasks.{create_task_payload}
use toolbridge_api.Entities.Chats.{create_chat_payload}
use toolbridge_api.Entities.Tool.{Resource, ToolCall, Invocation}
use toolbridge_api.Entities.Calls.{after_calls}
use toolbridge_api.Entities.Isolation.{tools-isolate}
use toolbridge_api.Tests.NoteRuns.{no_loads, no_value}
use toolbridge_api.Tests.RequestRuns.{
  user_token, multi_tenant, counting_http, plain_jose, shared_world, other_user,
}

abbrev new_task : ToolCall
new_task =
    ToolCall.create_task "Plan" none (some "todo") none (some "2026-01-31") none
      (some (Fields.dict (("status", Json.text "done") ∷ [])))

-- an additional field goes before the argument of its name
task_fields :
    create_task_payload no_loads no_value "Plan" none
      (some "todo")
      none
      (some "2026-01-31")
      none
      (some (Fields.dict (("status", Json.text "done") ∷ [])))
    ≡ ok (
        ("title", Json.text "Plan")
        ∷ ("status", Json.text "done")
        ∷ ("dueDate", Json.text "2026-01-31")
        ∷ [])
unfolding insert
task_fields = refl

-- the participants are decoded before the tags
chat_fields :
    create_chat_payload no_loads no_value "Team"
      (some "")
      (some (Json.text "["))
      true
      (some (Json.text "]"))
      none
    ≡ err (Exc.value_error "Invalid JSON string for participants: Expecting value")
unfolding exc_text
chat_fields = refl

abbrev invocations : List Invocation
invocations =
    record { now = 100; later = 101; token = ok user_token; tool = new_task }
    ∷ record {
      now = 102;
      later = 103;
      token = ok user_token;
      tool = ToolCall.list Resource.chats 10 none false;
    }
    ∷ record {
      now = 104;
      later = 105;
      token = ok user_token;
      tool = ToolCall.delete_note_ui "n1" 20 false UiFormat.both;
    }
    ∷ []

-- `str` for these runs
abbrev same_text : String → String
same_text s = s

tools-isolate_example :
    let w' =
      after_calls no_loads no_value same_text counting_http plain_jose multi_tenant invocations
        shared_world in
    (lookup "u2" w'.tenant_cache ≡ lookup "u2" shared_world.tenant_cache)
    × (lookup "u2" w'.jwt_cache ≡ lookup "u2" shared_world.jwt_cache)
tools-isolate_example =
    tools-isolate no_loads no_value same_text counting_http plain_jose multi_tenant "u2" invocations
      shared_world (other_user, (other_user, (other_user, tt)))
