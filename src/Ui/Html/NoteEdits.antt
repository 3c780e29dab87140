-- ===== src/Ui/Html/NoteEdits.antt =====
-- mcp/toolbridge_mcp/ui/templates/note_edits.py: the pages for a proposed, a discarded and a failed edit.
use Prim.Native.String.{◌++◌ as ◌<>◌}
use toolbridge_api.Prelude.{
  ℕ, String, Option, none, some, List, [], ◌∷◌, ◌++◌, ltb, ◌==◌, if◌then◌else◌,
}
use toolbridge_api.Prelude.Text.{join, str}
use toolbridge_api.Prelude.Strip.{strip}
use toolbridge_api.Errors.{Result, ok, ◌>>=◌}
use toolbridge_api.Notes.Types.{Note, text_or}
use toolbridge_api.Sessions.Types.{NoteEditHunkState}
use toolbridge_api.Sessions.Store.{HunkCounts, count_hunks, no_counts}
use toolbridge_api.Ui.Dom.NoteEdits.{total_changes, apply_label}
use toolbridge_api.Ui.Html.Escape.{escape}
use toolbridge_api.Ui.Html.HunkBlock.{render_hunk_block_html}
use toolbridge_api.Ui.Html.DiffStyle.{diff_style}
use toolbridge_api.Ui.Html.DiffScript.{diff_script}
use toolbridge_api.Ui.Html.ResultStyles.{discarded_style, error_style}

abbrev pub count_chip_html : ℕ → String → String → String
count_chip_html n name mark =
    if ltb 0 n
    then join (
        "<span class=\"status-chip status-"
        ∷ name
        ∷ "\">"
        ∷ mark
        ∷ str n
        ∷ " "
        ∷ name
        ∷ "</span>"
        ∷ [])
    else ""

abbrev pub chips_html : HunkCounts → List String
chips_html c =
    (count_chip_html c.pending "pending" ""
      ∷ count_chip_html c.accepted "accepted" "✓ "
      ∷ count_chip_html c.rejected "rejected" "✗ "
      ∷ count_chip_html c.revised "revised" "✎ "
      ∷ [])

abbrev pub status_chips_html : HunkCounts → String
status_chips_html c =
    if ltb 0 (total_changes c)
    then "<div class=\"status-chips\">" <> (join (chips_html c) <> "</div>")
    else ""

abbrev pub hunks_html : List NoteEditHunkState → String
hunks_html [] = ""
hunks_html (h ∷ hunks) = render_hunk_block_html h <> hunks_html hunks

abbrev pub summary_html : Option String → String
summary_html none = ""
summary_html (some summary) =
    if summary == "" then "" else "<p class=\"summary-text\">" <> (escape summary <> "</p>")

abbrev pub apply_class : ℕ → String
apply_class pending = if ltb 0 pending then "btn-disabled" else ""

abbrev pub apply_disabled : ℕ → String
apply_disabled pending = if ltb 0 pending then "disabled" else ""

-- the body of the page, up to the identifier in the script
abbrev pub diff_body : String → ℕ → List NoteEditHunkState → String → Option String → List String
diff_body title version hunks edit_id summary =
    let counts = count_hunks no_counts hunks in
    "        </style>\n    </head>\n    <body>\n        <div class=\"header\">\n            "
    ∷ "<span class=\"header-icon\">✏\u{fe0f}</span>\n            <h1>Proposed changes</h1>\n        </div>\n        "
    ∷ "<p class=\"subtitle\">"
    ∷ escape (strip title)
    ∷ " (v"
    ∷ str version
    ∷ ")</p>\n        "
    ∷ summary_html summary
    ∷ "\n        "
    ∷ status_chips_html counts
    ∷ "\n\n        <div class=\"hunks-container\">\n            "
    ∷ hunks_html hunks
    ∷ "\n        </div>\n\n        <div class=\"actions-row\">\n            "
    ∷ "<button class=\"btn btn-text\" onclick=\"discardEdit()\">✗ Discard all</button>\n            "
    ∷ "<button class=\"btn btn-primary "
    ∷ apply_class counts.pending
    ∷ "\" onclick=\"applyChanges()\" "
    ∷ apply_disabled counts.pending
    ∷ ">✓ "
    ∷ apply_label counts.pending
    ∷ "</button>\n        </div>\n\n        <script>\n            const EDIT_ID = \""
    ∷ escape edit_id
    ∷ []

abbrev pub diff_page : String → ℕ → List NoteEditHunkState → String → Option String → List String
diff_page title version hunks edit_id summary =
    diff_style ++ (diff_body title version hunks edit_id summary ++ diff_script)

unfoldable pub render_note_edit_diff_html :
    Note → List NoteEditHunkState → String → Option String → Result String
render_note_edit_diff_html note hunks edit_id summary =
    text_or note.payload "title" "Untitled note" >>= λ title.
    ok (join (diff_page title note.version hunks edit_id summary))

abbrev pub discarded_page : String → List String
discarded_page title =
    (discarded_style
      ++ ("        </style>\n    </head>\n    <body>\n        <div class=\"header\">\n            "
          ∷ "<span class=\"header-icon\">✗</span>\n            <h1>Changes discarded</h1>\n        </div>\n        "
          ∷ "<p class=\"message\">Pending edits for '"
          ∷ escape title
          ∷ "' have been discarded.</p>\n    </body>\n    </html>\n    "
          ∷ []))

unfoldable pub render_note_edit_discarded_html : String → String
render_note_edit_discarded_html title = join (discarded_page title)

abbrev pub retry_hint : Option String → String
retry_hint none = ""
retry_hint (some note_uid) =
    if note_uid == ""
    then ""
    else "\n        <p class=\"retry-hint\">The note may have been modified. Please re-run "
      <> "edit_note_ui to create a fresh diff.</p>\n        "

abbrev pub error_page : String → Option String → List String
error_page error_message note_uid =
    (error_style
      ++ ("        </style>\n    </head>\n    <body>\n        <div class=\"error-container\">\n            "
          ∷ "<div class=\"header\">\n                <span class=\"header-icon\">⚠</span>\n                "
          ∷ "<h1>Failed to apply changes</h1>\n            </div>\n            <p class=\"error-message\">"
          ∷ escape error_message
          ∷ "</p>\n            "
          ∷ retry_hint note_uid
          ∷ "\n        </div>\n    </body>\n    </html>\n    "
          ∷ []))

unfoldable pub render_note_edit_error_html : String → Option String → String
render_note_edit_error_html error_message note_uid = join (error_page error_message note_uid)
