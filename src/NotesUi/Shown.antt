-- ===== src/NotesUi/Shown.antt =====
-- mcp/toolbridge_mcp/tools/notes_ui.py: the hunks that `edit_note_ui` shows.
use toolbridge_api.Prelude.{
  ℕ, ◌+◌, String, ◌≡◌, refl, ap, ap₂, Bool, false, not, Option, List, [], ◌∷◌, map, filter, arith,
}
use toolbridge_api.Diff.Types.{Kind, DiffHunk, is_unchanged}
use toolbridge_api.Diff.Matcher.{Matcher}
use toolbridge_api.Diff.Compute.{compute_line_diff}
use toolbridge_api.Diff.Annotate.{
  orig_len, new_len, annotated, annotate_loop, annotate_hunks_with_ids,
}
use toolbridge_api.Diff.Apply.{or_empty}
use toolbridge_api.Sessions.Store.{hunk_state}
use toolbridge_api.Sessions.Paired.{Paired}
use toolbridge_api.NotesUi.Display.{truncate_hunk, truncate_unchanged_for_display}
use toolbridge_api.NotesUi.Edit.{display_hunks}

-- what a hunk keeps: its kind, its identifier and its line ranges
abbrev pub Frame : Type 0
Frame = Kind × Option String × Option ℕ × Option ℕ × Option ℕ × Option ℕ

abbrev pub frame : DiffHunk → Frame
frame h = (h.kind, h.id, h.orig_start, h.orig_end, h.new_start, h.new_end)

abbrev pub is_changed : DiffHunk → Bool
is_changed h = not (is_unchanged h.kind)

module _ (k : ℕ) where
  truncate_hunk-frame : (h : DiffHunk) → frame (truncate_hunk k h) ≡ frame h
  unfolding truncate_hunk
  truncate_hunk-frame h = ground arith

  truncate_hunk-changed : (h : DiffHunk) → is_unchanged h.kind ≡ false → truncate_hunk k h ≡ h
  unfolding truncate_hunk
  truncate_hunk-changed h e = rw e

  filter-truncate_hunk :
      (h : DiffHunk) (xs ys : List DiffHunk)
      → filter is_changed xs ≡ filter is_changed ys
      → filter is_changed (truncate_hunk k h ∷ xs) ≡ filter is_changed (h ∷ ys)
  filter-truncate_hunk h xs ys e =
      ground (arith, ap (λ (f : Frame). f.0) (truncate_hunk-frame h), truncate_hunk-changed h, e)

  -- `_truncate_unchanged_for_display` keeps the kinds, the identifiers and the line ranges of the
  -- hunks, in their order, and leaves the changed hunks as they are.
  pub truncate_unchanged_for_display_lem :
      (hs : List DiffHunk)
      → (map frame (truncate_unchanged_for_display k hs) ≡ map frame hs)
        × (filter is_changed (truncate_unchanged_for_display k hs) ≡ filter is_changed hs)
  unfolding truncate_unchanged_for_display
  truncate_unchanged_for_display_lem [] = (refl, refl)
  truncate_unchanged_for_display_lem (h ∷ hs) = (
    ap₂ (λ x xs. x ∷ xs) (truncate_hunk-frame h) (truncate_unchanged_for_display_lem hs).0,
    filter-truncate_hunk h (map (truncate_hunk k) hs) hs (truncate_unchanged_for_display_lem hs).1,
  )

  Paired-display :
      (hs : List DiffHunk) (i x y : ℕ)
      → Paired i (map hunk_state (map (truncate_hunk k) (annotate_loop i x y hs))) hs
  unfolding annotate_loop
  Paired-display [] i x y = tt
  Paired-display (h ∷ hs) i x y = (
    ap (λ (f : Frame). or_empty f.1) (truncate_hunk-frame (annotated i x y h)),
    ap (λ (f : Frame). f.0) (truncate_hunk-frame (annotated i x y h)),
    Paired-display hs (i + 1) (x + orig_len h) (y + new_len h),
  )

-- The hunks that `edit_note_ui` hands to a session are paired with the full diff of its texts.
pub display_hunks-Paired :
    (get_opcodes : Matcher) (original proposed : String)
    → Paired 0
        (map hunk_state (display_hunks get_opcodes original proposed))
        (compute_line_diff get_opcodes original proposed 5 false)
unfolding display_hunks truncate_unchanged_for_display annotate_hunks_with_ids
display_hunks-Paired get_opcodes original proposed =
    Paired-display 5 (compute_line_diff get_opcodes original proposed 5 false) 0 1 1
