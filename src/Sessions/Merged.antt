-- ===== src/Sessions/Merged.antt =====
-- The content of a session whose hunks are all resolved.
use Prim.Native.String.{◌++◌ as ◌<>◌}
use toolbridge_api.Prelude.{
  ℕ, ◌+◌, String, ◌≡◌, refl, ap, ap₂, subst, ◌∙◌, ◌⊎◌, true, false, not, ◌&&◌, Option, none, some,
  List, [], ◌∷◌, map, arith, any, All,
}
use toolbridge_api.Prelude.Text.{join}
use toolbridge_api.Errors.{ok}
use toolbridge_api.Dict.{Dict, lookup}
use toolbridge_api.Diff.Types.{Kind, Status, DiffHunk, HunkDecision, is_unchanged, is_pending}
use toolbridge_api.Diff.Matcher.{Matcher, IsMatcher}
use toolbridge_api.Diff.Compute.{compute_line_diff}
use toolbridge_api.Diff.Annotate.{
  orig_len, new_len, hunk_id, annotated, annotate_loop, annotate_hunks_with_ids,
}
use toolbridge_api.Diff.Decisions.{
  waits, chosen_at, chosen, first_open, Proper, IsProper, apply-of_none_open,
}
use toolbridge_api.Diff.Tiles.{originals, proposals}
use toolbridge_api.Diff.Outcomes.{full_hunks-IsProper}
use toolbridge_api.Sessions.Types.{NoteEditHunkState, NoteEditSession}
use toolbridge_api.Sessions.Store.{copy_hunk, is_pending_hunk, decisions_from, merged_content}
use toolbridge_api.Sessions.DecisionMap.{decision, lookup-decisions_from}
use toolbridge_api.Sessions.Paired.{Paired, Paired-DistinctIds}

-- Independently of the code: what a hunk of the full diff becomes by the session's hunk beside it.
abbrev pub choice : NoteEditHunkState → DiffHunk → String
choice s h = chosen_at h.kind h (some (decision s))

abbrev pub merged_texts : List NoteEditHunkState → List DiffHunk → String
merged_texts [] hs = ""
merged_texts (s ∷ ss) [] = ""
merged_texts (s ∷ ss) (h ∷ hs) = choice s h <> merged_texts ss hs

waits-of_resolved :
    (k l : Kind) (st : Status) (r : Option String)
    → k ≡ l
    → (is_pending st && not (is_unchanged k)) ≡ false
    → waits l (some (record { status = st; revised_text = r })) ≡ false
waits-of_resolved k l st r e p = ground arith

choice-annotated :
    (s : NoteEditHunkState) (h : DiffHunk) (i x y : ℕ)
    → chosen_at h.kind (copy_hunk (annotated i x y h)) (some (decision s)) ≡ choice s h
choice-annotated s h i x y = ground arith

choice-accepted :
    (s : NoteEditHunkState) (h : DiffHunk) (k : Kind)
    → s.kind ≡ k
    → Proper k h.original h.proposed
    → (is_unchanged s.kind ≡ true) ⊎ (s.status ≡ Status.accepted)
    → chosen_at k h (some (decision s)) ≡ h.proposed
choice-accepted s h k e q a = ground arith

choice-rejected :
    (s : NoteEditHunkState) (h : DiffHunk) (k : Kind)
    → s.kind ≡ k
    → (is_unchanged s.kind ≡ true) ⊎ (s.status ≡ Status.rejected)
    → chosen_at k h (some (decision s)) ≡ h.original
choice-rejected s h k e a = ground arith

module _ (ds : Dict HunkDecision) where
  abbrev Holds : List NoteEditHunkState → Type 0
  Holds = All (λ (s : NoteEditHunkState). lookup s.id ds ≡ some (decision s))

  first_open-resolved :
      (ss : List NoteEditHunkState) (hs : List DiffHunk) (i x y : ℕ)
      → Paired i ss hs
      → Holds ss
      → any is_pending_hunk ss ≡ false
      → first_open ds (map copy_hunk (annotate_loop i x y hs)) ≡ none
  unfolding annotate_loop
  first_open-resolved [] [] i x y p l r = refl
  first_open-resolved [] (h ∷ hs) i x y p l r = absurd p
  first_open-resolved (s ∷ ss) [] i x y p l r = absurd p
  first_open-resolved (s ∷ ss) (h ∷ hs) i x y (e, k, p) (f, l) r =
      let found : lookup (hunk_id i) ds ≡ some (decision s) =
        subst (λ u. lookup u ds ≡ some (decision s)) e f in
      let resolved : is_pending_hunk s ≡ false = ground arith in
      let others : any is_pending_hunk ss ≡ false = ground arith in
      rw (found, waits-of_resolved s.kind h.kind s.status s.revised_text k resolved)
        (first_open-resolved ss hs (i + 1) (x + orig_len h) (y + new_len h) p l others)

  chosen-merged :
      (ss : List NoteEditHunkState) (hs : List DiffHunk) (i x y : ℕ)
      → Paired i ss hs
      → Holds ss
      → join (map (chosen ds) (map copy_hunk (annotate_loop i x y hs))) ≡ merged_texts ss hs
  unfolding annotate_loop
  chosen-merged [] [] i x y p l = refl
  chosen-merged [] (h ∷ hs) i x y p l = absurd p
  chosen-merged (s ∷ ss) [] i x y p l = absurd p
  chosen-merged (s ∷ ss) (h ∷ hs) i x y (e, k, p) (f, l) =
      let found : lookup (hunk_id i) ds ≡ some (decision s) =
        subst (λ u. lookup u ds ≡ some (decision s)) e f in
      ap₂ ◌<>◌
        (ap (chosen_at h.kind (copy_hunk (annotated i x y h))) found ∙ choice-annotated s h i x y)
        (chosen-merged ss hs (i + 1) (x + orig_len h) (y + new_len h) p l)

-- Copying and annotating keep kinds and texts.
pub copies-IsProper :
    (hs : List DiffHunk) (i x y : ℕ)
    → All IsProper (annotate_loop i x y hs)
    → All IsProper (map copy_hunk (annotate_loop i x y hs))
unfolding annotate_loop
copies-IsProper [] i x y p = tt
copies-IsProper (h ∷ hs) i x y (p, ps) =
    (p, copies-IsProper hs (i + 1) (x + orig_len h) (y + new_len h) ps)

module _ (get_opcodes : Matcher) where
  -- the diff on which a session's decisions are made
  abbrev pub session_diff : NoteEditSession → List DiffHunk
  session_diff s = compute_line_diff get_opcodes s.original_content s.proposed_content 5 false

  -- The session's hunks are those of the diff of its texts, named in order.
  abbrev pub IsPaired : NoteEditSession → Type 0
  IsPaired s = Paired 0 s.hunks (session_diff s)

  module _ (m : IsMatcher get_opcodes) where
    pub merged_content-of_resolved :
        (s : NoteEditSession)
        → IsPaired s
        → any is_pending_hunk s.hunks ≡ false
        → merged_content get_opcodes s ≡ ok (merged_texts s.hunks (session_diff s))
    unfolding merged_content annotate_hunks_with_ids
    merged_content-of_resolved s p r =
        let ds = decisions_from [] s.hunks in
        let hs = session_diff s in
        let held = lookup-decisions_from s.hunks [] (Paired-DistinctIds 0 s.hunks hs p) in
        apply-of_none_open ds (map copy_hunk (annotate_loop 0 1 1 hs))
          (copies-IsProper hs 0 1 1
            (full_hunks-IsProper get_opcodes s.original_content s.proposed_content 5 m))
          (first_open-resolved ds s.hunks hs 0 1 1 p held r)
        ∙ ap ok (chosen-merged ds s.hunks hs 0 1 1 p held)

-- every changed hunk has the status `st`
abbrev pub AllStatus : Status → List NoteEditHunkState → Type 0
AllStatus st = All (λ (s : NoteEditHunkState). (is_unchanged s.kind ≡ true) ⊎ (s.status ≡ st))

pub merged-accepted :
    (ss : List NoteEditHunkState) (hs : List DiffHunk) (i : ℕ)
    → Paired i ss hs
    → All IsProper hs
    → AllStatus Status.accepted ss
    → merged_texts ss hs ≡ proposals hs
merged-accepted [] [] i p q a = refl
merged-accepted [] (h ∷ hs) i p q a = absurd p
merged-accepted (s ∷ ss) [] i p q a = absurd p
merged-accepted (s ∷ ss) (h ∷ hs) i (e, k, p) (q, qs) (a, rest) =
    ap₂ ◌<>◌ (choice-accepted s h h.kind k q a) (merged-accepted ss hs (i + 1) p qs rest)

pub merged-rejected :
    (ss : List NoteEditHunkState) (hs : List DiffHunk) (i : ℕ)
    → Paired i ss hs
    → AllStatus Status.rejected ss
    → merged_texts ss hs ≡ originals hs
merged-rejected [] [] i p a = refl
merged-rejected [] (h ∷ hs) i p a = absurd p
merged-rejected (s ∷ ss) [] i p a = absurd p
merged-rejected (s ∷ ss) (h ∷ hs) i (e, k, p) (a, rest) =
    ap₂ ◌<>◌ (choice-rejected s h h.kind k a) (merged-rejected ss hs (i + 1) p rest)
