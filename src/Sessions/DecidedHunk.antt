-- ===== src/Sessions/DecidedHunk.antt =====
-- mcp/toolbridge_mcp/note_edit_sessions.py: the hunks of a session after one decision.
use toolbridge_api.Prelude.{
  String, ◌≡◌, refl, sym, ap, ap₂, subst, inl, inr, false, Option, none, List, [], ◌∷◌, map, ◌==◌,
  eq_iff, All, Bool-cases, if◌then◌else◌,
}
use toolbridge_api.Diff.Types.{Status}
use toolbridge_api.Sessions.Types.{NoteEditHunkState}
use toolbridge_api.Sessions.Store.{revision, update_hunk}
use toolbridge_api.Sessions.DecisionMap.{DistinctIds}

-- Independently of the code: the text that a decision keeps.
abbrev pub kept_text : Status → Option String → Option String
kept_text Status.pending text = none
kept_text Status.accepted text = none
kept_text Status.rejected text = none
kept_text Status.revised text = text

-- Independently of the code: a hunk after a decision on the hunk of an identifier.
abbrev pub decided_hunk : String → Status → Option String → NoteEditHunkState → NoteEditHunkState
decided_hunk hunk_id st text h =
    if h.id == hunk_id then record h { status = st; revised_text = kept_text st text } else h

revision-kept : (st : Status) (text : Option String) → revision st text ≡ kept_text st text
revision-kept Status.pending text = refl
revision-kept Status.accepted text = refl
revision-kept Status.rejected text = refl
revision-kept Status.revised text = refl

map-decided_other :
    (hunk_id : String) (st : Status) (text : Option String) (hs : List NoteEditHunkState)
    → All (λ (g : NoteEditHunkState). (g.id == hunk_id) ≡ false) hs
    → map (decided_hunk hunk_id st text) hs ≡ hs
map-decided_other hunk_id st text [] a = refl
map-decided_other hunk_id st text (h ∷ hs) (e, a) =
    rw e (ap (λ gs. h ∷ gs) (map-decided_other hunk_id st text hs a))

-- The first hunk of an identifier is its only one.
pub update_hunk-map :
    (hunk_id : String) (st : Status) (text : Option String) (hs : List NoteEditHunkState)
    → DistinctIds hs
    → update_hunk hunk_id st text hs ≡ map (decided_hunk hunk_id st text) hs
unfolding update_hunk
update_hunk-map hunk_id st text [] u = refl
update_hunk-map hunk_id st text (h ∷ hs) (named, fresh, u) = elim (Bool-cases (h.id == hunk_id)) [
  | inr e ↦ rw e (ap (λ gs. h ∷ gs) (update_hunk-map hunk_id st text hs u))
  | inl e ↦
      let others = map-decided_other hunk_id st text hs (
        subst (λ k. All (λ (g : NoteEditHunkState). (g.id == k) ≡ false) hs)
          ((eq_iff h.id hunk_id).0 e) fresh) in
      rw e (
        ap₂ (λ r gs. record h { status = st; revised_text = r } ∷ gs) (revision-kept st text)
          (sym others))
]
