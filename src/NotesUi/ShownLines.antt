-- ===== src/NotesUi/ShownLines.antt =====
-- mcp/toolbridge_mcp/tools/notes_ui.py: how many lines an unchanged section is shown with.
use toolbridge_api.Prelude.{
  ℕ, ◌+◌, ◌≤◌, ◌≡◌, ◌⊎◌, inl, inr, false, List, [], ◌∷◌, arith, ◌==◌, eq_iff, ltb, Bool-cases,
  length, All,
}
use toolbridge_api.Diff.Types.{DiffHunk, is_unchanged}
use toolbridge_api.Diff.Lines.{split_lf}
use toolbridge_api.Diff.Compute.Bounds.{length-truncate_text}
use toolbridge_api.NotesUi.Display.{truncate_hunk, truncate_unchanged_for_display}

truncate_hunk-lines :
    (k : ℕ) (h : DiffHunk)
    → 2 ≤ k
    → let g = truncate_hunk k h in
      (is_unchanged g.kind ≡ false) ⊎ (length (split_lf g.original) ≤ k + 1)
unfolding truncate_hunk split_lf
truncate_hunk-lines k h bound = elim (Bool-cases (is_unchanged h.kind)) [
  | inr e ↦ rw (e, truncate_hunk) (inl e)
  | inl e ↦ elim (Bool-cases (h.original == "")) [
    | inl f ↦ rw (e, f, truncate_hunk) (inr (rw ((eq_iff h.original "").0 f) (omega arith)))
    | inr f ↦ elim (Bool-cases (ltb k (length (split_lf h.original)))) [
      | inl t ↦ rw (e, f, t, truncate_hunk) (inr (length-truncate_text k h.original bound))
      | inr t ↦ rw (e, f, t, truncate_hunk) (inr (ground (arith, t)))
    ]
  ]
]

-- With a limit of at least two lines: every unchanged section that `truncate_unchanged_for_display`
-- gives has at most one line more than the limit.
pub truncate_unchanged_for_display-lines :
    (k : ℕ) (hunks : List DiffHunk)
    → 2 ≤ k
    → All
        (λ (g : DiffHunk). (is_unchanged g.kind ≡ false) ⊎ (length (split_lf g.original) ≤ k + 1))
        (truncate_unchanged_for_display k hunks)
unfolding truncate_unchanged_for_display
truncate_unchanged_for_display-lines k [] bound = tt
truncate_unchanged_for_display-lines k (h ∷ hunks) bound =
    (truncate_hunk-lines k h bound, truncate_unchanged_for_display-lines k hunks bound)
