-- ===== src/Ui/Html/PageParts.antt =====
-- mcp/toolbridge_mcp/ui/templates/note_edits.py: the tags of the page for a proposed edit.
use Prim.Native.String.{◌++◌ as ◌<>◌}
use toolbridge_api.Prelude.{
  ℕ, ◌+◌, String, ◌≡◌, refl, ◌∙◌, inl, inr, Option, none, some, List, [], ◌∷◌, ◌++◌, arith, ltb,
  ◌==◌, Bool-cases, if◌then◌else◌,
}
use toolbridge_api.Prelude.Text.{join, str}
use toolbridge_api.Prelude.Strip.{strip}
use toolbridge_api.Sessions.Types.{NoteEditHunkState}
use toolbridge_api.Sessions.Store.{HunkCounts, count_hunks, no_counts}
use toolbridge_api.Ui.Dom.NoteEdits.{total_changes, apply_label}
use toolbridge_api.Ui.Html.Escape.{escape, opened, opened-append, opened-escape, opened-str}
use toolbridge_api.Ui.Html.Tags.{sum_opened, opened-join}
use toolbridge_api.Ui.Html.CardTags.{template_tags, render_hunk_block_html-tags}
use toolbridge_api.Ui.Html.HunkBlock.{render_hunk_block_html}
use toolbridge_api.Ui.Html.DiffStyle.{diff_style}
use toolbridge_api.Ui.Html.DiffScript.{diff_script}
use toolbridge_api.Ui.Html.NoteEdits.{
  count_chip_html, chips_html, status_chips_html, hunks_html, summary_html, apply_class,
  apply_disabled, diff_body,
}

pub sum_opened-append :
    (ss ts : List String) → sum_opened (ss ++ ts) ≡ sum_opened ss + sum_opened ts
sum_opened-append [] ts = omega arith
sum_opened-append (s ∷ ss) ts = omega (arith, sum_opened-append ss ts)

pub style-opened : sum_opened diff_style ≡ 3
unfolding opened
style-opened = refl

pub script-opened : sum_opened diff_script ≡ 3
unfolding opened
script-opened = refl

-- the tags of a chip, and of all of them with what is around them
abbrev chip_tags : ℕ → ℕ
chip_tags n = if ltb 0 n then 2 else 0

abbrev chips_tags : HunkCounts → ℕ
chips_tags c =
    if ltb 0 (total_changes c)
    then 2
      + (chip_tags c.pending
          + (chip_tags c.accepted + (chip_tags c.rejected + chip_tags c.revised)))
    else 0

count_chip-opened :
    (n : ℕ) (name mark : String)
    → opened name ≡ 0
    → opened mark ≡ 0
    → opened (count_chip_html n name mark) ≡ chip_tags n
unfolding opened
count_chip-opened n name mark e f = elim (Bool-cases (ltb 0 n)) [
  | inl shown ↦ rw shown (
      opened-join (
        "<span class=\"status-chip status-"
        ∷ name
        ∷ "\">"
        ∷ mark
        ∷ str n
        ∷ " "
        ∷ name
        ∷ "</span>"
        ∷ [])
      ∙ rw (e, f, opened-str n) refl)
  | inr hidden ↦ rw hidden refl
]

chips-opened : (c : HunkCounts) → opened (status_chips_html c) ≡ chips_tags c
unfolding opened
chips-opened c = elim (Bool-cases (ltb 0 (total_changes c))) [
  | inl shown ↦ rw shown (
      omega (
        arith,
        opened-append "<div class=\"status-chips\">" (join (chips_html c) <> "</div>"),
        opened-append (join (chips_html c)) "</div>",
        opened-join (chips_html c),
        count_chip-opened c.pending "pending" "" refl refl,
        count_chip-opened c.accepted "accepted" "✓ " refl refl,
        count_chip-opened c.rejected "rejected" "✗ " refl refl,
        count_chip-opened c.revised "revised" "✎ " refl refl,
      ))
  | inr hidden ↦ rw hidden refl
]

-- the tags of the hunks
abbrev hunks_tags : List NoteEditHunkState → ℕ
hunks_tags [] = 0
hunks_tags (h ∷ hunks) = template_tags h + hunks_tags hunks

hunks-opened : (hunks : List NoteEditHunkState) → opened (hunks_html hunks) ≡ hunks_tags hunks
unfolding opened
hunks-opened [] = refl
hunks-opened (h ∷ hunks) = omega (
  arith,
  opened-append (render_hunk_block_html h) (hunks_html hunks),
  render_hunk_block_html-tags h,
  hunks-opened hunks,
)

abbrev summary_tags : Option String → ℕ
summary_tags none = 0
summary_tags (some summary) = if summary == "" then 0 else 2

summary-opened : (summary : Option String) → opened (summary_html summary) ≡ summary_tags summary
unfolding opened
summary-opened none = refl
summary-opened (some summary) = elim (Bool-cases (summary == "")) [
  | inl e ↦ rw e refl
  | inr e ↦ rw e (
      omega (
        arith,
        opened-append "<p class=\"summary-text\">" (escape summary <> "</p>"),
        opened-append (escape summary) "</p>",
        opened-escape summary,
      ))
]

class-opened : (n : ℕ) → opened (apply_class n) ≡ 0
unfolding opened
class-opened n = elim (Bool-cases (ltb 0 n)) [ inl e ↦ rw e refl | inr e ↦ rw e refl ]

disabled-opened : (n : ℕ) → opened (apply_disabled n) ≡ 0
unfolding opened
disabled-opened n = elim (Bool-cases (ltb 0 n)) [ inl e ↦ rw e refl | inr e ↦ rw e refl ]

label-opened : (n : ℕ) → opened (apply_label n) ≡ 0
unfolding opened
label-opened n = elim (Bool-cases (ltb 0 n)) [
  | inl e ↦ rw e (
      omega (
        arith,
        opened-append "Resolve " (str n <> " pending to apply"),
        opened-append (str n) " pending to apply",
        opened-str n,
      ))
  | inr e ↦ rw e refl
]

-- the tags of what a page shows of an edit
abbrev pub shown_tags : List NoteEditHunkState → Option String → ℕ
shown_tags hunks summary =
    summary_tags summary + (chips_tags (count_hunks no_counts hunks) + hunks_tags hunks)

pub body-opened :
    (title : String) (version : ℕ) (hunks : List NoteEditHunkState) (edit_id : String)
    (summary : Option String)
    → sum_opened (diff_body title version hunks edit_id summary) ≡ 20 + shown_tags hunks summary
unfolding opened
body-opened title version hunks edit_id summary =
    let counts = count_hunks no_counts hunks in
    rw
      (
        opened-escape (strip title),
        opened-str version,
        summary-opened summary,
        chips-opened counts,
        hunks-opened hunks,
        class-opened counts.pending,
        disabled-opened counts.pending,
        label-opened counts.pending,
        opened-escape edit_id,
      )
      (omega arith)
