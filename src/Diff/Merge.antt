-- ===== src/Diff/Merge.antt =====
-- mcp/toolbridge_mcp/utils/diff.py: `_merge_consecutive_hunks`.
use Prim.Native.String.{◌++◌ as ◌<>◌}
use toolbridge_api.Prelude.{
  ℕ, ◌+◌, String, ◌≡◌, refl, sym, ap, ap₂, subst₂, ◌∙◌, inl, inr, true, false, List, [], ◌∷◌, arith,
  All, Bool-cases,
}
use toolbridge_api.Prelude.Text.{join}
use toolbridge_api.Diff.Types.{Kind, DiffHunk, kind_eq}
use toolbridge_api.Diff.Annotate.{orig_len, new_len}
use toolbridge_api.Diff.Compute.{merge_pair, merge_loop, merge_consecutive_hunks}
use toolbridge_api.Diff.Tiles.{chunk, KindFits, IsPiece, Tiles, HasCounts, join-chunk-chunk}

-- the first hunk is not of the kind `k`, and no two neighbours are of one kind
abbrev pub AlternatesAfter : Kind → List DiffHunk → Type 0
AlternatesAfter k [] = Unit
AlternatesAfter k (h ∷ hs) = (kind_eq h.kind k ≡ false) × AlternatesAfter h.kind hs

-- no two neighbours are of one kind
abbrev pub Alternates : List DiffHunk → Type 0
Alternates [] = Unit
Alternates (h ∷ hs) = AlternatesAfter h.kind hs

module _ (g h : DiffHunk) (cg : HasCounts g) (ch : HasCounts h) where
  -- the texts and the counts of two hunks of one kind, taken together
  KindFits-merge_pair :
      (k l : Kind) → kind_eq l k ≡ true → KindFits k g → KindFits l h → KindFits k (merge_pair g h)
  KindFits-merge_pair Kind.unchanged Kind.unchanged e kg kh = ap₂ ◌<>◌ kg kh
  KindFits-merge_pair Kind.added Kind.added e kg kh = omega (arith, cg.0, ch.0, kg, kh)
  KindFits-merge_pair Kind.removed Kind.removed e kg kh = omega (arith, cg.1, ch.1, kg, kh)
  KindFits-merge_pair Kind.modified l e kg kh = tt
  KindFits-merge_pair _ _ e kg kh = cc

module _ (a b : List String) where
  merge_pair-IsPiece :
      (i j : ℕ) (g h : DiffHunk)
      → kind_eq h.kind g.kind ≡ true
      → HasCounts g
      → HasCounts h
      → IsPiece a b i j g
      → IsPiece a b (i + orig_len g) (j + new_len g) h
      → IsPiece a b i j (merge_pair g h)
  merge_pair-IsPiece i j g h e cg ch pg ph = record {
    orig_text =
        ap₂ ◌<>◌ pg.orig_text ph.orig_text
        ∙ join-chunk-chunk i (orig_len g) (orig_len h) a
        ∙ ap (λ n. join (chunk i n a)) (sym (ap₂ ◌+◌ cg.0 ch.0));
    new_text =
        ap₂ ◌<>◌ pg.new_text ph.new_text
        ∙ join-chunk-chunk j (new_len g) (new_len h) b
        ∙ ap (λ n. join (chunk j n b)) (sym (ap₂ ◌+◌ cg.1 ch.1));
    orig_fits = omega (arith, cg.0, ch.0, ph.orig_fits);
    new_fits = omega (arith, cg.1, ch.1, ph.new_fits);
    kind_fits = KindFits-merge_pair g h cg ch g.kind h.kind e pg.kind_fits ph.kind_fits;
  }

  merge_loop-Tiles :
      (hs : List DiffHunk) (i j : ℕ) (g : DiffHunk)
      → HasCounts g
      → All HasCounts hs
      → IsPiece a b i j g
      → Tiles a b (i + orig_len g) (j + new_len g) hs
      → Tiles a b i j (merge_loop g hs)
  unfolding merge_loop
  merge_loop-Tiles [] i j g cg chs pg t = (pg, t)
  merge_loop-Tiles (h ∷ hs) i j g cg (ch, chs) pg (ph, t) =
      elim (Bool-cases (kind_eq h.kind g.kind)) [
        | inl same ↦ rw same (
            merge_loop-Tiles hs i j (merge_pair g h) (refl, refl) chs
              (merge_pair-IsPiece i j g h same cg ch pg ph)
              (subst₂ (λ x y. Tiles a b x y hs)
                (let e : i + orig_len g + orig_len h ≡ i + orig_len (merge_pair g h) =
                    omega (arith, cg.0, ch.0) in
                  e)
                (let e : j + new_len g + new_len h ≡ j + new_len (merge_pair g h) =
                    omega (arith, cg.1, ch.1) in
                  e)
                t))
        | inr differ ↦
            rw differ (pg, merge_loop-Tiles hs (i + orig_len g) (j + new_len g) h ch chs ph t)
      ]

  pub merge-Tiles :
      (i j : ℕ) (hs : List DiffHunk)
      → All HasCounts hs
      → Tiles a b i j hs
      → Tiles a b i j (merge_consecutive_hunks hs)
  unfolding merge_consecutive_hunks
  merge-Tiles i j [] chs t = t
  merge-Tiles i j (h ∷ hs) (ch, chs) (p, t) = merge_loop-Tiles hs i j h ch chs p t

merge_loop-AlternatesAfter :
    (hs : List DiffHunk) (g : DiffHunk) (k : Kind)
    → kind_eq g.kind k ≡ false
    → AlternatesAfter k (merge_loop g hs)
unfolding merge_loop
merge_loop-AlternatesAfter [] g k e = (e, tt)
merge_loop-AlternatesAfter (h ∷ hs) g k e = elim (Bool-cases (kind_eq h.kind g.kind)) [
  | inl same ↦ rw same (merge_loop-AlternatesAfter hs (merge_pair g h) k e)
  | inr differ ↦ rw differ (e, merge_loop-AlternatesAfter hs h g.kind differ)
]

merge_loop-Alternates : (hs : List DiffHunk) (g : DiffHunk) → Alternates (merge_loop g hs)
unfolding merge_loop
merge_loop-Alternates [] g = tt
merge_loop-Alternates (h ∷ hs) g = elim (Bool-cases (kind_eq h.kind g.kind)) [
  | inl same ↦ rw same (merge_loop-Alternates hs (merge_pair g h))
  | inr differ ↦ rw differ (merge_loop-AlternatesAfter hs h g.kind differ)
]

pub merge-Alternates : (hs : List DiffHunk) → Alternates (merge_consecutive_hunks hs)
unfolding merge_consecutive_hunks
merge-Alternates [] = tt
merge-Alternates (h ∷ hs) = merge_loop-Alternates hs h

merge_loop-of_Alternates :
    (hs : List DiffHunk) (g : DiffHunk) → AlternatesAfter g.kind hs → merge_loop g hs ≡ g ∷ hs
unfolding merge_loop
merge_loop-of_Alternates [] g p = refl
merge_loop-of_Alternates (h ∷ hs) g (differ, p) =
    rw differ (ap (λ gs. g ∷ gs) (merge_loop-of_Alternates hs h p))

merge-of_Alternates : (hs : List DiffHunk) → Alternates hs → merge_consecutive_hunks hs ≡ hs
unfolding merge_consecutive_hunks
merge-of_Alternates [] p = refl
merge-of_Alternates (h ∷ hs) p = merge_loop-of_Alternates hs h p

-- Merging leaves no two neighbours of one kind, and merging once more changes nothing.
pub merge_idem :
    (hs : List DiffHunk)
    → Alternates (merge_consecutive_hunks hs)
      × (merge_consecutive_hunks (merge_consecutive_hunks hs) ≡ merge_consecutive_hunks hs)
merge_idem hs =
    (merge-Alternates hs, merge-of_Alternates (merge_consecutive_hunks hs) (merge-Alternates hs))
