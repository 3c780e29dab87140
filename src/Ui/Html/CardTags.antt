-- ===== src/Ui/Html/CardTags.antt =====
-- mcp/toolbridge_mcp/ui/templates/note_edits.py: all the tags of a hunk.
use Prim.Native.String.{◌++◌ as ◌<>◌}
use toolbridge_api.Prelude.{
  ℕ, ◌+◌, String, ◌≡◌, refl, ◌∙◌, inl, inr, arith, ltb, ◌==◌, Bool-cases, length, if◌then◌else◌,
}
use toolbridge_api.Prelude.Text.{join, str}
use toolbridge_api.Diff.Types.{Status, is_unchanged, is_pending}
use toolbridge_api.Diff.Lines.{split_lf}
use toolbridge_api.Sessions.Types.{NoteEditHunkState}
use toolbridge_api.Ui.Dom.DiffContent.{content_lines}
use toolbridge_api.Ui.Html.Escape.{escape, opened, opened-append, opened-escape, opened-str}
use toolbridge_api.Ui.Html.HunkBlock.{
  context_html, unchanged_html, actions_html, card_html, render_hunk_block_html,
}
use toolbridge_api.Ui.Html.Tags.{opened-join, twice, status-opened, header-opened, content-opened}

-- the tags of the buttons
abbrev action_tags : Status → ℕ
action_tags st = if is_pending st then 8 else 0

actions-opened : (hunk_id : String) → opened hunk_id ≡ 0 → opened (join (actions_html hunk_id)) ≡ 8
unfolding opened
actions-opened hunk_id e = opened-join (actions_html hunk_id) ∙ rw e refl

pending-opened :
    (st : Status) (hunk_id : String)
    → opened hunk_id ≡ 0
    → opened (if is_pending st then join (actions_html hunk_id) else "") ≡ action_tags st
unfolding opened
pending-opened Status.pending hunk_id e = actions-opened hunk_id e
pending-opened Status.accepted hunk_id e = refl
pending-opened Status.rejected hunk_id e = refl
pending-opened Status.revised hunk_id e = refl

-- the tags of a card
abbrev card_tags : NoteEditHunkState → ℕ
card_tags h =
    10 + (action_tags h.status + twice (content_lines h.kind h.original h.proposed h.revised_text))

card-opened : (h : NoteEditHunkState) → opened (join (card_html h)) ≡ card_tags h
unfolding opened
card-opened h =
    opened-join (card_html h)
    ∙ rw
        (
          status-opened h.status,
          opened-escape h.id,
          header-opened h,
          content-opened h.kind h.original h.proposed h.revised_text,
          pending-opened h.status (escape h.id) (opened-escape h.id),
        )
        (omega arith)

context-opened : (original : String) → opened (context_html original) ≡ 0
unfolding opened
context-opened original = elim (Bool-cases (ltb 3 (length (split_lf original)))) [
  | inl e ↦ rw e (
      omega (
        arith,
        opened-append "... (" (str (length (split_lf original)) <> " unchanged lines) ..."),
        opened-append (str (length (split_lf original))) " unchanged lines) ...",
        opened-str (length (split_lf original)),
      ))
  | inr e ↦ rw e (opened-escape original)
]

abbrev unchanged_tags : String → ℕ
unchanged_tags original = if original == "" then 0 else 4

unchanged-opened : (original : String) → opened (unchanged_html original) ≡ unchanged_tags original
unfolding opened
unchanged-opened original = elim (Bool-cases (original == "")) [
  | inl e ↦ rw e refl
  | inr e ↦ rw e (
      omega (
        arith,
        opened-append "<div class=\"unchanged-block\"><span class=\"unchanged-text\">"
            (context_html original <> "</span></div>"),
        opened-append (context_html original) "</span></div>",
        context-opened original,
      ))
]

-- the tags that the template itself writes
abbrev pub template_tags : NoteEditHunkState → ℕ
template_tags h = if is_unchanged h.kind then unchanged_tags h.original else card_tags h

-- The tags of a hunk are those that the template writes.
pub render_hunk_block_html-tags :
    (h : NoteEditHunkState) → opened (render_hunk_block_html h) ≡ template_tags h
unfolding render_hunk_block_html
render_hunk_block_html-tags h = elim (Bool-cases (is_unchanged h.kind)) [
  | inl e ↦ rw e (unchanged-opened h.original)
  | inr e ↦ rw e (card-opened h)
]
