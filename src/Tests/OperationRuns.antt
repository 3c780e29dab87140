-- ===== src/Tests/OperationRuns.antt =====
-- mcp/toolbridge_mcp: a sequence of operations on the sessions, and the update that is sent after it.
use toolbridge_api.Prelude.{◌≡◌, refl, none, some, List, [], ◌∷◌}
use toolbridge_api.Dict.{lookup, insert, erase}
use toolbridge_api.Diff.Types.{Status}
use toolbridge_api.Diff.Apply.{apply_hunk_decisions}
use toolbridge_api.Diff.Annotate.{annotate_hunks_with_ids}
use toolbridge_api.Diff.Compute.{compute_line_diff}
use toolbridge_api.Notes.Types.{text_or}
use toolbridge_api.Prelude.Strip.{strip}
use toolbridge_api.Sessions.Store.{
  create_session, set_hunk_status, update_hunk, recompute_current_content, merged_content,
  decisions_from, discard_session,
}
use toolbridge_api.Sessions.Consistent.{
  AllSessions, IsShown, Operation, run, run_all, sessions_never_stale,
}
use toolbridge_api.Ui.Resources.{UiFormat}
use toolbridge_api.NotesUi.Display.{truncate_hunk, truncate_unchanged_for_display}
use toolbridge_api.NotesUi.Edit.{display_hunks}
use toolbridge_api.NotesUi.Apply.{apply_note_edit}
use toolbridge_api.NotesUi.Writes.{recorded, Written, apply_note_edit-writes}
use toolbridge_api.Tests.Fixtures.{
  prefix_matcher, prefix_matcher-IsMatcher, old_text, new_text, sample_note, one_note_api,
}
use toolbridge_api.Tests.ToolRuns.{ready_sessions}

-- two sessions made, one decided on and one dropped
abbrev sample_operations : List (Operation prefix_matcher)
sample_operations =
    Operation.create "e1" 10 sample_note new_text none (some "u1")
      (some (display_hunks prefix_matcher old_text new_text))
    ∷ Operation.create "e2" 11 sample_note "x" none none none
    ∷ Operation.set_status "e1" "h2" Status.accepted none
    ∷ Operation.discard "e2"
    ∷ []

-- The session that is left shows its content.
sample_sessions : run_all prefix_matcher sample_operations [] ≡ ready_sessions
unfolding run create_session text_or lookup insert erase strip display_hunks
    truncate_unchanged_for_display annotate_hunks_with_ids compute_line_diff truncate_hunk
    set_hunk_status update_hunk recompute_current_content merged_content apply_hunk_decisions
    decisions_from discard_session
sample_sessions = refl

sessions_never_stale_example :
    AllSessions (IsShown prefix_matcher) (run_all prefix_matcher sample_operations [])
sessions_never_stale_example =
    sessions_never_stale prefix_matcher prefix_matcher-IsMatcher sample_operations

writes_example :
    let sessions = run_all prefix_matcher sample_operations [] in
    Written prefix_matcher prefix_matcher-IsMatcher one_note_api "e1" UiFormat.html sessions
      sample_note []
      (apply_note_edit prefix_matcher
        (recorded one_note_api)
        "e1"
        UiFormat.html
        sessions
        (sample_note, [])).2.1
writes_example =
    apply_note_edit-writes prefix_matcher prefix_matcher-IsMatcher one_note_api sample_operations
      "e1" UiFormat.html sample_note []
