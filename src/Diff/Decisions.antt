-- ===== src/Diff/Decisions.antt =====
-- What `apply_hunk_decisions` makes of the decisions, and where it raises.
use Prim.Native.String.{◌++◌ as ◌<>◌}
use toolbridge_api.Prelude.{
  String, ◌≡◌, refl, sym, ap, ◌∙◌, inl, inr, Bool, true, false, Option, none, some, List, [], ◌∷◌,
  map, arith, All, Bool-cases, if◌then◌else◌,
}
use text.Mathlib.TextLemmas.{nil-append}
use toolbridge_api.Prelude.Text.{join}
use toolbridge_api.Errors.{Result, ok, err, Result-cases}
use toolbridge_api.Dict.{Dict, lookup}
use toolbridge_api.Diff.Types.{Kind, Status, DiffHunk, HunkDecision, is_pending}
use toolbridge_api.Diff.Apply.{
  or_empty, pending_error, segment_at, append_segment, segments_of, apply_hunk_decisions,
}

-- Independently of the code: whether a hunk of kind `k` still waits for its decision.
abbrev pub waits : Kind → Option HunkDecision → Bool
waits Kind.unchanged d = false
waits _ none = true
waits _ (some d) = is_pending d.status

-- Independently of the code: the text that stands for a changed hunk after its decision.
abbrev pub outcome : DiffHunk → Status → Option String → String
outcome h Status.pending text = h.original
outcome h Status.accepted text = h.proposed
outcome h Status.rejected text = h.original
outcome h Status.revised text = or_empty text

abbrev pub chosen_at : Kind → DiffHunk → Option HunkDecision → String
chosen_at Kind.unchanged h d = h.original
chosen_at _ h none = h.original
chosen_at _ h (some d) = outcome h d.status d.revised_text

module _ (ds : Dict HunkDecision) where
  abbrev pub decision_of : DiffHunk → Option HunkDecision
  decision_of h = lookup (or_empty h.id) ds

  abbrev pub chosen : DiffHunk → String
  chosen h = chosen_at h.kind h (decision_of h)

  -- the first hunk that waits, by its identifier
  abbrev pub first_open : List DiffHunk → Option String
  first_open [] = none
  first_open (h ∷ hs) = if waits h.kind (decision_of h) then some (or_empty h.id) else first_open hs

-- An unchanged hunk has one text twice, an added one no original, and a removed one no proposed text.
abbrev pub Proper : Kind → String → String → Type 0
Proper Kind.unchanged original proposed = original ≡ proposed
Proper Kind.added original proposed = original ≡ ""
Proper Kind.removed original proposed = proposed ≡ ""
Proper Kind.modified original proposed = Unit

abbrev pub IsProper : DiffHunk → Type 0
IsProper h = Proper h.kind h.original h.proposed

segment_at-of_waits :
    (k : Kind) (h : DiffHunk) (d : Option HunkDecision)
    → waits k d ≡ true
    → segment_at k h d ≡ err (pending_error (or_empty h.id))
segment_at-of_waits k h d w = ground arith

-- `s` adds the text `t` to the segments
abbrev Adds : Option String → String → Type 0
Adds s t = (segments : List String) → join (append_segment s segments) ≡ t <> join segments

Adds-nothing : {t : String} → t ≡ "" → Adds none t
Adds-nothing e segments = sym (nil-append (join segments)) ∙ ap (λ u. u <> join segments) (sym e)

Adds-or_empty : (r : Option String) → Adds r (or_empty r)
Adds-or_empty none segments = Adds-nothing refl segments
Adds-or_empty (some t) segments = refl

-- A hunk that does not wait adds its chosen text.
abbrev Decides : Kind → DiffHunk → Option HunkDecision → Type 0
Decides k h d = (s : Option String) × (segment_at k h d ≡ ok s) × Adds s (chosen_at k h d)

segment_at-decided :
    (k : Kind) (h : DiffHunk) (st : Status) (r : Option String)
    → let d : Option HunkDecision = some (record { status = st; revised_text = r }) in
      Proper k h.original h.proposed → waits k d ≡ false → Decides k h d
segment_at-decided Kind.unchanged h st r o w = (some h.original, refl, λ segments. refl)
segment_at-decided Kind.added h Status.rejected r o w = (none, refl, Adds-nothing o)
segment_at-decided Kind.removed h Status.accepted r o w = (none, refl, Adds-nothing o)
segment_at-decided Kind.added h Status.accepted r o w = (some h.proposed, refl, λ segments. refl)
segment_at-decided Kind.removed h Status.rejected r o w = (some h.original, refl, λ segments. refl)
segment_at-decided Kind.modified h Status.accepted r o w = (some h.proposed, refl, λ segments. refl)
segment_at-decided Kind.modified h Status.rejected r o w = (some h.original, refl, λ segments. refl)
segment_at-decided Kind.added h Status.revised r o w = (r, refl, Adds-or_empty r)
segment_at-decided Kind.removed h Status.revised r o w = (r, refl, Adds-or_empty r)
segment_at-decided Kind.modified h Status.revised r o w = (r, refl, Adds-or_empty r)
segment_at-decided _ h Status.pending r o w = cc

segment_at-Decides :
    (k : Kind) (h : DiffHunk) (d : Option HunkDecision)
    → Proper k h.original h.proposed
    → waits k d ≡ false
    → Decides k h d
segment_at-Decides Kind.unchanged h none o w = (some h.original, refl, λ segments. refl)
segment_at-Decides k h (some d) o w = segment_at-decided k h d.status d.revised_text o w
segment_at-Decides _ h none o w = cc

-- an error for the hunk that waits, or else the text
unfoldable pub resolve : Option String → String → Result String
resolve none text = ok text
resolve (some id) text = err (pending_error id)

module _ (ds : Dict HunkDecision) where
  -- The result that the decisions call for.
  abbrev pub decided_text : List DiffHunk → Result String
  decided_text hs = resolve (first_open ds hs) (join (map (chosen ds) hs))

  -- For hunks whose texts fit their kinds (an unchanged hunk has one text twice, an added one no
  -- original and a removed one no proposed text), `apply_hunk_decisions` raises the pending error of the first changed hunk that has no decision
  -- or a pending one, and when there is none it returns the chosen texts of all hunks in order.
  pub apply_hunk_decisions_lem :
      (hs : List DiffHunk) → All IsProper hs → apply_hunk_decisions hs ds ≡ decided_text hs
  unfolding apply_hunk_decisions resolve
  apply_hunk_decisions_lem [] o = refl
  apply_hunk_decisions_lem (h ∷ hs) (o, os) = elim (Bool-cases (waits h.kind (decision_of ds h))) [
    | inl w ↦ ground (arith, segment_at-of_waits h.kind h (decision_of ds h) w)
    | inr w ↦
        let (s, e, adds) = segment_at-Decides h.kind h (decision_of ds h) o w in
        let ih = apply_hunk_decisions_lem hs os in
        elim (Result-cases (segments_of ds hs)) [
          | inl (segments, r) ↦ ground (arith, e, adds segments, ih, r, w)
          | inr (x, r) ↦ ground (arith, e, ih, r, w)
        ]
  ]

  pub apply-of_none_open :
      (hs : List DiffHunk)
      → All IsProper hs
      → first_open ds hs ≡ none
      → apply_hunk_decisions hs ds ≡ ok (join (map (chosen ds) hs))
  unfolding resolve
  apply-of_none_open hs p e =
      apply_hunk_decisions_lem hs p ∙ ap (λ o. resolve o (join (map (chosen ds) hs))) e
