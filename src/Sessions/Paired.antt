-- ===== src/Sessions/Paired.antt =====
-- The hunks of a session beside the hunks of the full diff of its two texts.
use text.Mathlib.TextLemmas.{append-eq-nil_iff, cons≢nil}
use toolbridge_api.Prelude.{
  ℕ, ◌+◌, ◌<◌, String, ◌≡◌, inl, inr, false, Option, List, [], ◌∷◌, arith, ◌==◌, eq_iff, All,
  Bool-cases,
}
use toolbridge_api.Diff.Types.{Status, DiffHunk}
use toolbridge_api.Diff.Annotate.{hunk_id}
use toolbridge_api.Diff.Ranges.{hunk_id_injective}
use toolbridge_api.Sessions.Types.{NoteEditHunkState}
use toolbridge_api.Sessions.Store.{update_hunk}
use toolbridge_api.Sessions.DecisionMap.{DistinctIds}

-- From the index `i` on, the session's hunks are named in order, and are of the kinds of `hs`.
abbrev pub Paired : ℕ → List NoteEditHunkState → List DiffHunk → Type 0
Paired i [] [] = Unit
Paired i (s ∷ ss) (h ∷ hs) = (s.id ≡ hunk_id i) × (s.kind ≡ h.kind) × Paired (i + 1) ss hs
Paired i _ _ = ⊥

pub hunk_id-ne-empty : (i : ℕ) → (hunk_id i == "") ≡ false
hunk_id-ne-empty i = elim (Bool-cases (hunk_id i == "")) [
  | inl e ↦ absurd (cons≢nil (append-eq-nil_iff.0 ((eq_iff (hunk_id i) "").0 e)).0)
  | inr e ↦ e
]

hunk_id-ne : (i j : ℕ) → i < j → (hunk_id j == hunk_id i) ≡ false
hunk_id-ne i j h = elim (Bool-cases (hunk_id j == hunk_id i)) [
  | inl e ↦ absurd (omega (arith, hunk_id_injective j i ((eq_iff (hunk_id j) (hunk_id i)).0 e)))
  | inr e ↦ e
]

Paired-fresh :
    (i j : ℕ) (ss : List NoteEditHunkState) (hs : List DiffHunk)
    → i < j
    → Paired j ss hs
    → All (λ (g : NoteEditHunkState). (g.id == hunk_id i) ≡ false) ss
Paired-fresh i j [] hs h p = tt
Paired-fresh i j (s ∷ ss) [] h p = absurd p
Paired-fresh i j (s ∷ ss) (g ∷ hs) h (e, k, p) =
    (rw e (hunk_id-ne i j h), Paired-fresh i (j + 1) ss hs (omega arith) p)

pub Paired-DistinctIds :
    (i : ℕ) (ss : List NoteEditHunkState) (hs : List DiffHunk) → Paired i ss hs → DistinctIds ss
Paired-DistinctIds i [] hs p = tt
Paired-DistinctIds i (s ∷ ss) [] p = absurd p
Paired-DistinctIds i (s ∷ ss) (g ∷ hs) (e, k, p) = (
  rw e (hunk_id-ne-empty i),
  rw e (Paired-fresh i (i + 1) ss hs (omega arith) p),
  Paired-DistinctIds (i + 1) ss hs p,
)

-- An update keeps the pairing.
pub update_hunk-Paired :
    (id : String) (st : Status) (text : Option String) (i : ℕ) (ss : List NoteEditHunkState)
    (hs : List DiffHunk)
    → Paired i ss hs
    → Paired i (update_hunk id st text ss) hs
unfolding update_hunk
update_hunk-Paired id st text i [] hs p = p
update_hunk-Paired id st text i (s ∷ ss) [] p = absurd p
update_hunk-Paired id st text i (s ∷ ss) (g ∷ hs) (e, k, p) = elim (Bool-cases (s.id == id)) [
  | inl same ↦ rw same (e, k, p)
  | inr differ ↦ rw differ (e, k, update_hunk-Paired id st text (i + 1) ss hs p)
]
