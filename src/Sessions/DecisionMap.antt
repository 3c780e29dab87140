-- ===== src/Sessions/DecisionMap.antt =====
-- mcp/toolbridge_mcp/note_edit_sessions.py: the decisions map of `_recompute_current_content`.
use toolbridge_api.Prelude.{
  String, ◌≡◌, refl, ◌∙◌, false, some, List, [], ◌∷◌, arith, ◌==◌, eq_refl, All,
}
use toolbridge_api.Dict.{Dict, lookup, lookup-insert}
use toolbridge_api.Diff.Types.{HunkDecision}
use toolbridge_api.Sessions.Types.{NoteEditHunkState}
use toolbridge_api.Sessions.Store.{add_decision, decisions_from}

abbrev pub decision : NoteEditHunkState → HunkDecision
decision h = record { status = h.status; revised_text = h.revised_text }

-- The identifiers are not empty, and no two are equal.
abbrev pub DistinctIds : List NoteEditHunkState → Type 0
DistinctIds [] = Unit
DistinctIds (h ∷ hs) =
    ((h.id == "") ≡ false)
    × All (λ (g : NoteEditHunkState). (g.id == h.id) ≡ false) hs
    × DistinctIds hs

lookup-add_decision_ne :
    (j : String) (h : NoteEditHunkState) (d : Dict HunkDecision)
    → (h.id == j) ≡ false
    → lookup j (add_decision h d) ≡ lookup j d
lookup-add_decision_ne j h d e = ground (arith, lookup-insert h.id j (decision h) d)

-- a key that no hunk has is not touched
lookup-decisions_from_fresh :
    (j : String) (hs : List NoteEditHunkState) (d : Dict HunkDecision)
    → All (λ (g : NoteEditHunkState). (g.id == j) ≡ false) hs
    → lookup j (decisions_from d hs) ≡ lookup j d
unfolding decisions_from
lookup-decisions_from_fresh j [] d a = refl
lookup-decisions_from_fresh j (h ∷ hs) d (e, rest) =
    lookup-decisions_from_fresh j hs (add_decision h d) rest ∙ lookup-add_decision_ne j h d e

lookup-add_decision_self :
    (h : NoteEditHunkState) (d : Dict HunkDecision)
    → (h.id == "") ≡ false
    → lookup h.id (add_decision h d) ≡ some (decision h)
lookup-add_decision_self h d e =
    ground (arith, lookup-insert h.id h.id (decision h) d, eq_refl h.id)

pub lookup-decisions_from :
    (hs : List NoteEditHunkState) (d : Dict HunkDecision)
    → DistinctIds hs
    → All (λ h. lookup h.id (decisions_from d hs) ≡ some (decision h)) hs
unfolding decisions_from
lookup-decisions_from [] d u = tt
lookup-decisions_from (h ∷ hs) d (named, fresh, u) = (
  lookup-decisions_from_fresh h.id hs (add_decision h d) fresh ∙ lookup-add_decision_self h d named,
  lookup-decisions_from hs (add_decision h d) u,
)
