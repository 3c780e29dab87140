-- ===== src/Sessions/Content.antt =====
-- mcp/toolbridge_mcp/note_edit_sessions.py: the content that the decisions of a session call for.
use Prim.Native.String.{◌++◌ as ◌<>◌}
use toolbridge_api.Prelude.{
  ℕ, ◌+◌, String, ◌≡◌, refl, sym, ap, ap₂, ◌∙◌, inl, inr, false, Option, none, some, List, [], ◌∷◌,
  map, arith, ◌==◌, All, Bool-cases, if◌then◌else◌, eq_iff,
}
use toolbridge_api.Prelude.Text.{join}
use toolbridge_api.Errors.{ok}
use toolbridge_api.Dict.{Dict, lookup, lookup-insert}
use toolbridge_api.Diff.Types.{DiffHunk, HunkDecision}
use toolbridge_api.Diff.Matcher.{Matcher, IsMatcher}
use toolbridge_api.Diff.Annotate.{
  orig_len, new_len, hunk_id, annotated, annotate_loop, annotate_hunks_with_ids,
}
use toolbridge_api.Diff.Apply.{or_empty}
use toolbridge_api.Diff.Decisions.{
  waits, chosen_at, chosen, first_open, resolve, apply_hunk_decisions_lem,
}
use toolbridge_api.Diff.Outcomes.{full_hunks-IsProper}
use toolbridge_api.Sessions.Types.{NoteEditHunkState, NoteEditSession}
use toolbridge_api.Sessions.Store.{copy_hunk, add_decision, decisions_from, merged_content}
use toolbridge_api.Sessions.DecisionMap.{decision}
use toolbridge_api.Sessions.Paired.{hunk_id-ne-empty}
use toolbridge_api.Sessions.Merged.{session_diff, copies-IsProper}

-- Independently of the code: the decision for an identifier, that of the last hunk which has it.
abbrev pub last_decision :
    String → Option HunkDecision → List NoteEditHunkState → Option HunkDecision
last_decision id found [] = found
last_decision id found (h ∷ hs) =
    last_decision id (if h.id == id then some (decision h) else found) hs

-- Independently of the code: the decision of a session on a hunk of its full diff.
abbrev pub decision_on : List NoteEditHunkState → DiffHunk → Option HunkDecision
decision_on ss h = last_decision (or_empty h.id) none ss

-- Independently of the code: the text that stands for a hunk of the full diff.
abbrev pub text_of : List NoteEditHunkState → DiffHunk → String
text_of ss h = chosen_at h.kind h (decision_on ss h)

lookup-add_decision :
    (id : String) (h : NoteEditHunkState) (d : Dict HunkDecision)
    → (id == "") ≡ false
    → lookup id (add_decision h d) ≡ (if h.id == id then some (decision h) else lookup id d)
lookup-add_decision id h d n =
    ground (arith, n, lookup-insert h.id id (decision h) d, eq_iff h.id id, eq_iff h.id "")

lookup-last :
    (id : String) (hs : List NoteEditHunkState) (d : Dict HunkDecision)
    → (id == "") ≡ false
    → lookup id (decisions_from d hs) ≡ last_decision id (lookup id d) hs
unfolding decisions_from
lookup-last id [] d n = refl
lookup-last id (h ∷ hs) d n =
    lookup-last id hs (add_decision h d) n
    ∙ ap (λ o. last_decision id o hs) (lookup-add_decision id h d n)

module _ (ss : List NoteEditHunkState) where
  abbrev decisions : Dict HunkDecision
  decisions = decisions_from [] ss

  found-last : (i : ℕ) → lookup (hunk_id i) decisions ≡ last_decision (hunk_id i) none ss
  unfolding lookup
  found-last i = lookup-last (hunk_id i) ss [] (hunk_id-ne-empty i)

  annotated-decided :
      (hs : List DiffHunk) (i x y : ℕ)
      → first_open decisions (map copy_hunk (annotate_loop i x y hs)) ≡ none
      → All (λ (h : DiffHunk). waits h.kind (decision_on ss h) ≡ false) (annotate_loop i x y hs)
  unfolding annotate_loop
  annotated-decided [] i x y e = tt
  annotated-decided (h ∷ hs) i x y e =
      elim (Bool-cases (waits h.kind (lookup (hunk_id i) decisions))) [
        | inl w ↦ absurd (ground arith)
        | inr w ↦ (
          ap (waits h.kind) (sym (found-last i)) ∙ w,
          annotated-decided hs (i + 1) (x + orig_len h) (y + new_len h) (ground arith),
        )
      ]

  annotated-texts :
      (hs : List DiffHunk) (i x y : ℕ)
      → join (map (chosen decisions) (map copy_hunk (annotate_loop i x y hs)))
        ≡ join (map (text_of ss) (annotate_loop i x y hs))
  unfolding annotate_loop
  annotated-texts [] i x y = refl
  annotated-texts (h ∷ hs) i x y =
      ap₂ ◌<>◌ (ap (chosen_at h.kind (annotated i x y h)) (found-last i))
        (annotated-texts hs (i + 1) (x + orig_len h) (y + new_len h))

resolve-ok :
    (o : Option String) (text content : String)
    → resolve o text ≡ ok content
    → (o ≡ none) × (content ≡ text)
unfolding resolve
resolve-ok none text content e = (refl, cc)
resolve-ok (some id) text content e = absurd cc

module _ (get_opcodes : Matcher) where
  -- the full diff of a session's two texts, with the names of its hunks
  abbrev pub full_diff : NoteEditSession → List DiffHunk
  full_diff s = annotate_hunks_with_ids (session_diff get_opcodes s)

  -- Every changed hunk of the full diff is decided on by the session, and the content is that of
  -- the decisions, hunk by hunk.
  pub record IsMergedContent (s : NoteEditSession) (content : String) : Type 0 where
    pub all_decided :
        All (λ (h : DiffHunk). waits h.kind (decision_on s.hunks h) ≡ false) (full_diff s)
    pub texts : content ≡ join (map (text_of s.hunks) (full_diff s))

  pub merged_content-IsMergedContent :
      (s : NoteEditSession) (content : String)
      → IsMatcher get_opcodes
      → merged_content get_opcodes s ≡ ok content
      → IsMergedContent s content
  unfolding merged_content annotate_hunks_with_ids
  merged_content-IsMergedContent s content m e =
      let hs = session_diff get_opcodes s in
      let full = annotate_loop 0 1 1 hs in
      let ds = decisions_from [] s.hunks in
      let proper =
        copies-IsProper hs 0 1 1
          (full_hunks-IsProper get_opcodes s.original_content s.proposed_content 5 m) in
      let (decided, text) =
        resolve-ok (first_open ds (map copy_hunk full))
          (join (map (chosen ds) (map copy_hunk full))) content
          (sym (apply_hunk_decisions_lem ds (map copy_hunk full) proper) ∙ e) in
      record {
        all_decided = annotated-decided s.hunks hs 0 1 1 decided;
        texts = text ∙ annotated-texts s.hunks hs 0 1 1;
      }
