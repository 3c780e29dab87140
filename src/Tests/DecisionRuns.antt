-- ===== src/Tests/DecisionRuns.antt =====
-- mcp/toolbridge_mcp: a client that decides on the hunks of an edit, and what it is shown.
use toolbridge_api.Prelude.{
  ◌+◌, ◌-◌, ◌≤◌, ◌≡◌, refl, ◌⊎◌, arith, false, true, none, some, List, [], ◌∷◌, length, All,
}
use toolbridge_api.Prelude.Text.{join_with}
use toolbridge_api.Errors.{ok}
use toolbridge_api.Dict.{lookup}
use toolbridge_api.Diff.Types.{Kind, Status, DiffHunk, is_unchanged, is_pending}
use toolbridge_api.Diff.Lines.{split_lf}
use toolbridge_api.Diff.Compute.{counted_hunk}
use toolbridge_api.Sessions.Types.{NoteEditHunkState, NoteEditSession}
use toolbridge_api.Sessions.Store.{merged_content, get_hunk_counts, get_pending_hunks}
use toolbridge_api.Sessions.Settled.{Decision, names, decide_seq, decide_seq-settles}
use toolbridge_api.Sessions.Rounds.{rounds, rounds-pending}
use toolbridge_api.NotesUi.Display.{truncate_unchanged_for_display}
use toolbridge_api.NotesUi.ShownLines.{truncate_unchanged_for_display-lines}
use toolbridge_api.Ui.Dom.DiffContent.{content_lines, render_diff_content}
use toolbridge_api.Ui.Dom.Lines.{
  with_prefix, content_texts, text_before, text_after, render_diff_content-reads,
}
use toolbridge_api.Ui.Html.Escape.{opened}
use toolbridge_api.Ui.Html.NoteEdits.{
  render_note_edit_diff_html, render_note_edit_discarded_html, render_note_edit_error_html,
}
use toolbridge_api.Ui.Html.CardTags.{template_tags}
use toolbridge_api.Ui.Html.PageParts.{shown_tags}
use toolbridge_api.Ui.Html.PageTags.{hint_tags, pages-tags}
use toolbridge_api.Tests.Fixtures.{
  prefix_matcher, prefix_matcher-IsMatcher, sample_note, open_session, one_session,
}
use toolbridge_api.Tests.SessionRuns.{found, open_session-IsPaired}
use toolbridge_api.Tests.ToolRuns.{titled}

abbrev accept_h2 : Decision
accept_h2 = record { hunk_id = "h2"; status = Status.accepted; revised_text = none }

abbrev revise_h2 : Decision
revise_h2 = record { hunk_id = "h2"; status = Status.revised; revised_text = some "d" }

pending_named :
    All
      (λ (h : NoteEditHunkState). names (accept_h2 ∷ revise_h2 ∷ []) h ≡ true)
      (get_pending_hunks "e1" one_session)
unfolding get_pending_hunks lookup
pending_named = (refl, tt)

decide_seq-settles_example :
    let sessions = decide_seq prefix_matcher "e1" (accept_h2 ∷ revise_h2 ∷ []) one_session in
    (s : NoteEditSession) × (content : _) × (lookup "e1" sessions ≡ some s)
    × (s.current_content ≡ some content)
    × (merged_content prefix_matcher s ≡ ok content)
    × (get_pending_hunks "e1" sessions ≡ [])
decide_seq-settles_example =
    decide_seq-settles prefix_matcher prefix_matcher-IsMatcher "e1" accept_h2 (revise_h2 ∷ [])
      one_session open_session found open_session-IsPaired (refl, (refl, tt)) pending_named

abbrev accept_hunk : NoteEditHunkState → Decision
accept_hunk h = record { hunk_id = h.id; status = Status.accepted; revised_text = none }

accept_hunk-decides : (h : NoteEditHunkState) → is_pending (accept_hunk h).status ≡ false
accept_hunk-decides h = refl

rounds-pending_example :
    (get_hunk_counts "e1" (rounds prefix_matcher "e1" accept_hunk 1 one_session)).pending
    ≡ (get_hunk_counts "e1" one_session).pending - 1
rounds-pending_example =
    rounds-pending prefix_matcher "e1" accept_hunk prefix_matcher-IsMatcher accept_hunk-decides 1
      one_session open_session found open_session-IsPaired

abbrev five_lines : List DiffHunk
five_lines = counted_hunk Kind.unchanged "a\nb\nc\nd\n" "a\nb\nc\nd\n" 4 4 ∷ []

at_least_two : 2 ≤ 3
at_least_two = omega arith

shown_lines_example :
    All
      (λ (g : DiffHunk). (is_unchanged g.kind ≡ false) ⊎ (length (split_lf g.original) ≤ 3 + 1))
      (truncate_unchanged_for_display 3 five_lines)
shown_lines_example = truncate_unchanged_for_display-lines 3 five_lines at_least_two

reads_example :
    let lines = content_texts (render_diff_content Kind.modified "- a\nb" "+ c" (some "d\n- e")) in
    (join_with "\n" (with_prefix "- " lines) ≡ text_before Kind.modified "- a\nb")
    × (join_with "\n" (with_prefix "+ " lines) ≡ text_after Kind.modified "+ c" (some "d\n- e"))
reads_example = render_diff_content-reads Kind.modified "- a\nb" "+ c" (some "d\n- e") refl

-- a pending hunk with tags in every text
abbrev hostile_hunk : NoteEditHunkState
hostile_hunk = record {
  id = "<h1>";
  kind = Kind.modified;
  original = "<b>";
  proposed = "x\n</div><script>";
  status = Status.pending;
  revised_text = none;
  orig_start = some 1;
  orig_end = some 1;
  new_start = some 1;
  new_end = some 2;
}

hostile_tags : template_tags hostile_hunk ≡ 24
unfolding content_lines split_lf
hostile_tags = refl

pages_example :
    let hunks = hostile_hunk ∷ open_session.hunks in
    ((page : _) × (render_note_edit_diff_html sample_note hunks "<e1>" (some "<p>") ≡ ok page)
      × (opened page ≡ 26 + shown_tags hunks (some "<p>")))
    × (opened (render_note_edit_discarded_html " Plan ") ≡ 16)
    × (opened (render_note_edit_error_html "a<b" (some "n1")) ≡ 18 + hint_tags (some "n1"))
pages_example =
    pages-tags sample_note (hostile_hunk ∷ open_session.hunks) "<e1>" (some "<p>") " Plan " "a<b"
      (some "n1") titled
