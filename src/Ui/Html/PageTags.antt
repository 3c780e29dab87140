-- ===== src/Ui/Html/PageTags.antt =====
-- mcp/toolbridge_mcp/ui/templates/note_edits.py: the tags of the pages.
use toolbridge_api.Prelude.{
  ℕ, ◌+◌, String, ◌≡◌, refl, ◌∙◌, inl, inr, Option, none, some, List, ◌++◌, arith, ◌==◌, Bool-cases,
  if◌then◌else◌,
}
use toolbridge_api.Prelude.Text.{join}
use toolbridge_api.Errors.{ok}
use toolbridge_api.Notes.Types.{Note, text_or}
use toolbridge_api.Sessions.Types.{NoteEditHunkState}
use toolbridge_api.Ui.Html.Escape.{opened, opened-escape}
use toolbridge_api.Ui.Html.Tags.{opened-join}
use toolbridge_api.Ui.Html.DiffStyle.{diff_style}
use toolbridge_api.Ui.Html.DiffScript.{diff_script}
use toolbridge_api.Ui.Html.NoteEdits.{diff_body, diff_page, render_note_edit_diff_html}
use toolbridge_api.Ui.Html.NoteEdits.{
  retry_hint, discarded_page, error_page, render_note_edit_discarded_html,
  render_note_edit_error_html,
}
use toolbridge_api.Ui.Html.PageParts.{
  sum_opened-append, style-opened, script-opened, shown_tags, body-opened,
}

page-opened :
    (title : String) (version : ℕ) (hunks : List NoteEditHunkState) (edit_id : String)
    (summary : Option String)
    → opened (join (diff_page title version hunks edit_id summary)) ≡ 26 + shown_tags hunks summary
page-opened title version hunks edit_id summary =
    let body = diff_body title version hunks edit_id summary in
    omega (
      arith,
      opened-join (diff_style ++ (body ++ diff_script)),
      sum_opened-append diff_style (body ++ diff_script),
      sum_opened-append body diff_script,
      style-opened,
      body-opened title version hunks edit_id summary,
      script-opened,
    )

diff-opened :
    (note : Note) (hunks : List NoteEditHunkState) (edit_id : String) (summary : Option String)
    (title : String)
    → text_or note.payload "title" "Untitled note" ≡ ok title
    → (page : String) × (render_note_edit_diff_html note hunks edit_id summary ≡ ok page)
      × (opened page ≡ 26 + shown_tags hunks summary)
unfolding render_note_edit_diff_html
diff-opened note hunks edit_id summary title titled = (
  join (diff_page title note.version hunks edit_id summary),
  rw (titled, render_note_edit_diff_html),
  page-opened title note.version hunks edit_id summary,
)

discarded-opened : (title : String) → opened (render_note_edit_discarded_html title) ≡ 16
unfolding opened render_note_edit_discarded_html
discarded-opened title = opened-join (discarded_page title) ∙ rw (opened-escape title) refl

-- the tags of the advice to start again, where the note is known
abbrev pub hint_tags : Option String → ℕ
hint_tags none = 0
hint_tags (some note_uid) = if note_uid == "" then 0 else 2

hint-opened : (note_uid : Option String) → opened (retry_hint note_uid) ≡ hint_tags note_uid
unfolding opened
hint-opened none = refl
hint-opened (some note_uid) = elim (Bool-cases (note_uid == "")) [
  | inl e ↦ rw e refl
  | inr e ↦ rw e refl
]

error-opened :
    (error_message : String) (note_uid : Option String)
    → opened (render_note_edit_error_html error_message note_uid) ≡ 18 + hint_tags note_uid
unfolding opened render_note_edit_error_html
error-opened error_message note_uid =
    opened-join (error_page error_message note_uid)
    ∙ rw (opened-escape error_message, hint-opened note_uid) (omega arith)

-- Whatever the texts, the identifiers and the decisions of an edit, the pages have the tags of the
-- templates and no other. For a note whose title is a text or missing, `render_note_edit_diff_html`
-- gives a page, and as many "<" stand in it as the template has by itself: 26, 2 for a summary, 2
-- for each status that occurs and 2 around them, and for every hunk those of its card. In
-- the page of `render_note_edit_discarded_html` stand 16, and in that of
-- `render_note_edit_error_html` 18, and 2 more where the note is known.
pub pages-tags :
    (note : Note) (hunks : List NoteEditHunkState) (edit_id : String) (summary : Option String)
    (title error_message : String) (note_uid : Option String)
    → text_or note.payload "title" "Untitled note" ≡ ok title
    → ((page : String) × (render_note_edit_diff_html note hunks edit_id summary ≡ ok page)
        × (opened page ≡ 26 + shown_tags hunks summary))
      × (opened (render_note_edit_discarded_html title) ≡ 16)
      × (opened (render_note_edit_error_html error_message note_uid) ≡ 18 + hint_tags note_uid)
pages-tags note hunks edit_id summary title error_message note_uid titled = (
  diff-opened note hunks edit_id summary title titled,
  discarded-opened title,
  error-opened error_message note_uid,
)
