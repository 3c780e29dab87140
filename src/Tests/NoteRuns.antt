-- ===== src/Tests/NoteRuns.antt =====
-- mcp/toolbridge_mcp/tools/notes.py against a server that answers every request alike.
use toolbridge_api.Prelude.{ℕ, String, ◌≡◌, refl, false, some}
use toolbridge_api.Errors.{Exc, Result, ok, err}
use toolbridge_api.Dict.{Dict, lookup, insert, NodupKeys}
use toolbridge_api.Notes.Types.{Json}
use toolbridge_api.Ui.Resources.{UiFormat}
use toolbridge_api.NotesUi.Texts.{update_of}
use toolbridge_api.NotesUi.Apply.{apply_note_edit}
use toolbridge_api.Requests.Transport.{tenant_for, handle_async_request}
use toolbridge_api.Requests.Types.{World}
use toolbridge_api.Requests.Calls.{
  ensure_tenant_resolved, resolve_with, resolve_for, get_backend_auth_header, header_for,
  ensure_session, call, call_put,
}
use toolbridge_api.NoteTools.Tools.{update_payload, given, get_note, note_path, notes_api}
use toolbridge_api.NoteTools.Payload.{expected, update_of-payload}
use toolbridge_api.NoteTools.Sent.{apply_note_edit-put}
use toolbridge_api.Tests.Fixtures.{prefix_matcher, new_text, sample_note}
use toolbridge_api.Tests.ToolRuns.{ready_session, ready_sessions, ready_found}
use toolbridge_api.Tests.RequestRuns.{
  user_token, multi_tenant, counting_http, plain_jose, warm_world,
}

-- no text is decoded in these runs
abbrev pub no_loads : String → Result (Dict Json)
no_loads s = err (Exc.value_error "Expecting value")

abbrev pub no_value : String → Result Json
no_value s = err (Exc.value_error "Expecting value")

payload-NodupKeys : NodupKeys sample_note.payload
unfolding lookup
payload-NodupKeys = (refl, (refl, (refl, tt)))

update_of-payload_example :
    (p : Dict Json) × (update_payload no_loads no_value "n1"
        (Json.text " Plan ")
        new_text
        (given (update_of ready_session sample_note new_text).additional_fields)
      ≡ ok p)
    × ((k : String) → lookup k p ≡ expected ready_session sample_note new_text k)
unfolding lookup
update_of-payload_example =
    update_of-payload no_loads no_value ready_session sample_note new_text payload-NodupKeys

-- a fetch sends two requests, for the sync session and for the note
abbrev later_world : World ℕ
later_world = record warm_world { net = 4 }

fetches :
    (notes_api no_loads no_value counting_http plain_jose multi_tenant 100 (ok user_token)).get_note
      "n1" false warm_world
    ≡ (ok sample_note, later_world)
unfolding get_note call ensure_tenant_resolved resolve_with resolve_for get_backend_auth_header
    header_for ensure_session tenant_for handle_async_request lookup insert
fetches = refl

apply_note_edit-put_example :
    (p : Dict Json) × ((k : String) → lookup k p ≡ expected ready_session sample_note new_text k)
    × ((apply_note_edit prefix_matcher
          (notes_api no_loads no_value counting_http plain_jose multi_tenant 100 (ok user_token))
          "e1"
          UiFormat.html
          ready_sessions
          warm_world).2
        ≡ (call_put counting_http plain_jose multi_tenant 100
            (ok user_token)
            (note_path "n1")
            p
            (some 4)
            later_world).1)
apply_note_edit-put_example =
    apply_note_edit-put no_loads no_value counting_http plain_jose multi_tenant 100 (ok user_token)
      prefix_matcher "e1" UiFormat.html ready_sessions warm_world later_world ready_session
      sample_note new_text ready_found fetches refl refl refl payload-NodupKeys
