-- ===== src/Diff/Outcomes.antt =====
-- mcp/toolbridge_mcp/utils/diff.py: one decision for every changed hunk of a diff.
use Prim.Native.String.{◌++◌ as ◌<>◌}
use toolbridge_api.Prelude.{
  ℕ, ◌+◌, String, ◌≡◌, refl, ap, ap₂, ◌∙◌, false, Option, none, some, List, [], ◌∷◌, map, All,
}
use toolbridge_api.Prelude.Text.{join}
use toolbridge_api.Errors.{ok}
use toolbridge_api.Dict.{Dict}
use toolbridge_api.Diff.Types.{Kind, Status, DiffHunk, HunkDecision, is_pending}
use toolbridge_api.Diff.Lines.{splitlines}
use toolbridge_api.Diff.Matcher.{Matcher, IsMatcher}
use toolbridge_api.Diff.Compute.{compute_line_diff}
use toolbridge_api.Diff.Annotate.{orig_len, new_len, annotate_loop, annotate_hunks_with_ids}
use toolbridge_api.Diff.Apply.{apply_hunk_decisions}
use toolbridge_api.Diff.Tiles.{chunk, IsPiece, KindFits, Tiles, originals, proposals}
use toolbridge_api.Diff.Cover.{compute_line_diff-Tiles, compute_line_diff-covers}
use toolbridge_api.Diff.Decisions.{
  waits, chosen_at, decision_of, chosen, first_open, Proper, IsProper, apply-of_none_open,
}

Proper-of_piece :
    (a b : List String) (i j : ℕ) (h : DiffHunk)
    → IsPiece a b i j h
    → (k : Kind) → KindFits k h
    → Proper k h.original h.proposed
Proper-of_piece a b i j h p Kind.unchanged f = f
Proper-of_piece a b i j h p Kind.added f = p.orig_text ∙ ap (λ n. join (chunk i n a)) f
Proper-of_piece a b i j h p Kind.removed f = p.new_text ∙ ap (λ n. join (chunk j n b)) f
Proper-of_piece a b i j h p Kind.modified f = tt

Tiles-IsProper :
    (a b : List String) (i j : ℕ) (hs : List DiffHunk) → Tiles a b i j hs → All IsProper hs
Tiles-IsProper a b i j [] t = tt
Tiles-IsProper a b i j (h ∷ hs) (p, t) = (
  Proper-of_piece a b i j h p h.kind p.kind_fits,
  Tiles-IsProper a b (i + orig_len h) (j + new_len h) hs t,
)

-- Annotating keeps kinds and texts.
annotate_loop-IsProper :
    (hs : List DiffHunk) (n x y : ℕ) → All IsProper hs → All IsProper (annotate_loop n x y hs)
unfolding annotate_loop
annotate_loop-IsProper [] n x y p = tt
annotate_loop-IsProper (h ∷ hs) n x y (p, ps) =
    (p, annotate_loop-IsProper hs (n + 1) (x + orig_len h) (y + new_len h) ps)

annotate_loop-texts :
    (hs : List DiffHunk) (n x y : ℕ)
    → (originals (annotate_loop n x y hs) ≡ originals hs)
      × (proposals (annotate_loop n x y hs) ≡ proposals hs)
unfolding annotate_loop
annotate_loop-texts [] n x y = (refl, refl)
annotate_loop-texts (h ∷ hs) n x y =
    let (e, f) = annotate_loop-texts hs (n + 1) (x + orig_len h) (y + new_len h) in (rw e, rw f)

module _ (ds : Dict HunkDecision) (st : Status) where
  -- every changed hunk has a decision, with the status `st`
  abbrev pub Answered : Kind → DiffHunk → Type 0
  Answered Kind.unchanged h = Unit
  Answered _ h =
      (r : Option String) × (decision_of ds h ≡ some (record { status = st; revised_text = r }))

  abbrev pub AllAnswered : List DiffHunk → Type 0
  AllAnswered = All (λ h. Answered h.kind h)

module _ (ds : Dict HunkDecision) (h : DiffHunk) where
  Answered→decided :
      (st : Status) (k : Kind)
      → is_pending st ≡ false
      → Answered ds st k h
      → waits k (decision_of ds h) ≡ false
  Answered→decided st Kind.unchanged e a = refl
  Answered→decided st Kind.added e (r, p) = rw p e
  Answered→decided st _ e (r, p) = rw p e

  chosen-accepted :
      (k : Kind)
      → Proper k h.original h.proposed
      → Answered ds Status.accepted k h
      → chosen_at k h (decision_of ds h) ≡ h.proposed
  chosen-accepted Kind.unchanged p a = p
  chosen-accepted Kind.added p (r, e) = rw e
  chosen-accepted _ p (r, e) = rw e

  chosen-rejected :
      (k : Kind) → Answered ds Status.rejected k h → chosen_at k h (decision_of ds h) ≡ h.original
  chosen-rejected Kind.unchanged a = refl
  chosen-rejected Kind.added (r, e) = rw e
  chosen-rejected _ (r, e) = rw e

module _ (ds : Dict HunkDecision) where
  first_open-answered :
      (st : Status) (hs : List DiffHunk)
      → is_pending st ≡ false
      → AllAnswered ds st hs
      → first_open ds hs ≡ none
  first_open-answered st [] e a = refl
  first_open-answered st (h ∷ hs) e (a, more) =
      rw (Answered→decided ds h st h.kind e a) (first_open-answered st hs e more)

  chosen-each_accepted :
      (hs : List DiffHunk)
      → All IsProper hs
      → AllAnswered ds Status.accepted hs
      → join (map (chosen ds) hs) ≡ proposals hs
  chosen-each_accepted [] p a = refl
  chosen-each_accepted (h ∷ hs) (p, ps) (a, more) =
      ap₂ ◌<>◌ (chosen-accepted ds h h.kind p a) (chosen-each_accepted hs ps more)

  chosen-each_rejected :
      (hs : List DiffHunk)
      → AllAnswered ds Status.rejected hs
      → join (map (chosen ds) hs) ≡ originals hs
  chosen-each_rejected [] a = refl
  chosen-each_rejected (h ∷ hs) (a, more) =
      ap₂ ◌<>◌ (chosen-rejected ds h h.kind a) (chosen-each_rejected hs more)

  pub apply-each_accepted :
      (hs : List DiffHunk)
      → All IsProper hs
      → AllAnswered ds Status.accepted hs
      → apply_hunk_decisions hs ds ≡ ok (proposals hs)
  apply-each_accepted hs p a =
      apply-of_none_open ds hs p (first_open-answered Status.accepted hs refl a)
      ∙ ap ok (chosen-each_accepted hs p a)

  pub apply-each_rejected :
      (hs : List DiffHunk)
      → All IsProper hs
      → AllAnswered ds Status.rejected hs
      → apply_hunk_decisions hs ds ≡ ok (originals hs)
  apply-each_rejected hs p a =
      apply-of_none_open ds hs p (first_open-answered Status.rejected hs refl a)
      ∙ ap ok (chosen-each_rejected hs a)

-- the hunks that an edit is decided on
abbrev pub full_hunks : Matcher → String → String → ℕ → List DiffHunk
full_hunks get_opcodes original proposed k =
    annotate_hunks_with_ids (compute_line_diff get_opcodes original proposed k false)

module _ (get_opcodes : Matcher) (original proposed : String) (k : ℕ)
    (m : IsMatcher get_opcodes) where
  pub compute_line_diff-IsProper :
      All IsProper (compute_line_diff get_opcodes original proposed k false)
  compute_line_diff-IsProper =
      Tiles-IsProper (splitlines original) (splitlines proposed) 0 0 _
        (compute_line_diff-Tiles get_opcodes m k original proposed)

  pub full_hunks-IsProper : All IsProper (full_hunks get_opcodes original proposed k)
  unfolding annotate_hunks_with_ids
  full_hunks-IsProper =
      annotate_loop-IsProper (compute_line_diff get_opcodes original proposed k false) 0 1 1
        compute_line_diff-IsProper

  pub full_hunks-texts :
      (originals (full_hunks get_opcodes original proposed k) ≡ original)
      × (proposals (full_hunks get_opcodes original proposed k) ≡ proposed)
  unfolding annotate_hunks_with_ids
  full_hunks-texts =
      let (e, f) =
        annotate_loop-texts (compute_line_diff get_opcodes original proposed k false) 0 1 1 in
      let (g, h) = compute_line_diff-covers get_opcodes m k original proposed in (e ∙ g, f ∙ h)

  -- For every matcher that keeps its documentation: when every changed hunk of the annotated diff of
  -- two texts, made without truncation, is accepted, `apply_hunk_decisions` gives exactly the proposed text.
  pub accept-all :
      (ds : Dict HunkDecision)
      → AllAnswered ds Status.accepted (full_hunks get_opcodes original proposed k)
      → apply_hunk_decisions (full_hunks get_opcodes original proposed k) ds ≡ ok proposed
  accept-all ds a = apply-each_accepted ds _ full_hunks-IsProper a ∙ ap ok full_hunks-texts.1

  -- For every matcher that keeps its documentation: when every changed hunk of the annotated diff of
  -- two texts, made without truncation, is rejected, `apply_hunk_decisions` gives exactly the original text.
  pub reject-all :
      (ds : Dict HunkDecision)
      → AllAnswered ds Status.rejected (full_hunks get_opcodes original proposed k)
      → apply_hunk_decisions (full_hunks get_opcodes original proposed k) ds ≡ ok original
  reject-all ds a = apply-each_rejected ds _ full_hunks-IsProper a ∙ ap ok full_hunks-texts.0
