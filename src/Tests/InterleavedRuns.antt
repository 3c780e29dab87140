-- ===== src/Tests/InterleavedRuns.antt =====
-- mcp/toolbridge_mcp/tools/notes_ui.py: a call of `apply_note_edit` with other calls in its waits.
use toolbridge_api.Prelude.{◌≡◌, refl, subst, none, some, [], ◌∷◌, All}
use toolbridge_api.Errors.{ok}
use toolbridge_api.Dict.{lookup, insert, erase}
use toolbridge_api.Diff.Types.{Status}
use toolbridge_api.Notes.Types.{Note, text_or}
use toolbridge_api.Sessions.Store.{
  create_session, update_hunk, recompute_current_content, merged_content, decisions_from,
}
use toolbridge_api.Sessions.Consistent.{Operation}
use toolbridge_api.Sessions.Objects.{operate}
use toolbridge_api.Ui.Resources.{UiFormat}
use toolbridge_api.NotesUi.Api.{Update}
use toolbridge_api.NotesUi.Texts.{update_of}
use toolbridge_api.Prelude.Strip.{strip}
use toolbridge_api.Diff.Apply.{apply_hunk_decisions}
use toolbridge_api.Diff.Annotate.{annotate_hunks_with_ids}
use toolbridge_api.Diff.Compute.{compute_line_diff}
use toolbridge_api.NotesUi.Display.{truncate_hunk, truncate_unchanged_for_display}
use toolbridge_api.NotesUi.Edit.{display_hunks}
use toolbridge_api.NotesUi.Interleaved.{
  Applying, Progress, begin, resume, System, after_fetch, after_update, after_piece, Step, initial,
  Reach,
}
use toolbridge_api.NotesUi.Interleaved.Runs.{WasReady}
use toolbridge_api.NotesUi.Interleaved.Safety.{interleaved-WasReady}
use toolbridge_api.Tests.Fixtures.{
  prefix_matcher, prefix_matcher-IsMatcher, old_text, new_text, sample_note, open_session,
  one_note_api,
}
use toolbridge_api.Tests.ToolRuns.{ready_session}

abbrev create : Operation prefix_matcher
create =
    Operation.create "e1" 10 sample_note new_text none (some "u1")
      (some (display_hunks prefix_matcher old_text new_text))

abbrev operated : Operation prefix_matcher → System Note → System Note
operated o s = record s { heap = operate prefix_matcher o s.heap }

abbrev e1_call : Applying
e1_call = record { edit_id = "e1"; ui_format = UiFormat.html; session = 0 }

abbrev sent_update : Update
sent_update = update_of ready_session sample_note new_text

abbrev created : System Note
created = record {
  heap = record { objects = open_session ∷ []; table = ("e1", 0) ∷ [] };
  net = sample_note;
  calls = λ i. Progress.idle;
  log = [];
}

creates : operated create (initial prefix_matcher one_note_api sample_note) ≡ created
unfolding operate create_session text_or lookup insert strip display_hunks
    truncate_unchanged_for_display annotate_hunks_with_ids compute_line_diff truncate_hunk
creates = refl

abbrev called : System Note
called = after_piece 0 (begin "e1" UiFormat.html created.heap, created.heap) created

abbrev fetched : System Note
fetched = after_fetch one_note_api 0 e1_call open_session called

-- while the call waits, the hunk is accepted and the session dropped
abbrev decided : System Note
decided = record fetched { heap = record { objects = ready_session ∷ []; table = [] } }

decides :
    operated
      (Operation.discard "e1")
      (operated (Operation.set_status "e1" "h2" Status.accepted none) fetched)
    ≡ decided
unfolding operate lookup erase update_hunk recompute_current_content merged_content
    compute_line_diff annotate_hunks_with_ids apply_hunk_decisions decisions_from insert
decides = refl

abbrev resumed : System Note
resumed =
    after_piece 0 (resume prefix_matcher e1_call ready_session (ok sample_note) decided.heap)
      decided

abbrev updated : System Note
updated = after_update one_note_api 0 e1_call sent_update resumed

abbrev Reached : System Note → Type 0
Reached = Reach prefix_matcher one_note_api

waits : called.calls 0 ≡ Progress.fetching e1_call
unfolding begin lookup
waits = refl

prepares : resumed.calls 0 ≡ Progress.sending e1_call sent_update
unfolding resume
prepares = refl

Reached-created : Reached created
Reached-created =
    subst Reached creates (Reach.later (Reach.start sample_note) (Step.operation create))

Reached-fetched : Reached fetched
Reached-fetched =
    Reach.later (Reach.later Reached-created (Step.call 0 "e1" UiFormat.html refl))
      (Step.fetch 0 e1_call open_session waits refl)

Reached-decided : Reached decided
Reached-decided = subst Reached decides (
    Reach.later
      (Reach.later Reached-fetched
        (Step.operation (Operation.set_status "e1" "h2" Status.accepted none)))
      (Step.operation (Operation.discard "e1")))

Reached-updated : Reached updated
Reached-updated =
    Reach.later
      (Reach.later Reached-decided
        (Step.continue 0 e1_call (ok sample_note) ready_session refl refl))
      (Step.update 0 e1_call sent_update prepares)

-- the update of the dropped session is sent
one_update : updated.log ≡ sent_update ∷ []
one_update = refl

interleaved-WasReady_example :
    All (λ u. WasReady prefix_matcher one_note_api u updated Reached-updated) updated.log
interleaved-WasReady_example =
    interleaved-WasReady prefix_matcher prefix_matcher-IsMatcher one_note_api updated
      Reached-updated

-- the hunk is accepted before the call
abbrev ready_system : System Note
ready_system = record decided {
  heap = record { objects = ready_session ∷ []; table = ("e1", 0) ∷ [] };
  calls = λ i. Progress.idle;
}
