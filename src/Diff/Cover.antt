-- ===== src/Diff/Cover.antt =====
-- mcp/toolbridge_mcp/utils/diff.py: the hunks of `compute_line_diff` as pieces of both texts.
use toolbridge_api.Prelude.{
  ℕ, ◌+◌, ◌≤◌, String, ◌≡◌, refl, sym, ap, subst₂, ◌∙◌, inl, inr, false, List, [], ◌∷◌, map, arith,
  ◌==◌, eq_iff, length, take-length, All, Bool-cases,
}
use toolbridge_api.Prelude.Text.{join}
use toolbridge_api.Diff.Lines.{splitlines, join-splitlines}
use toolbridge_api.Diff.Matcher.{Tag, Opcode, TagHolds, Covers, Matcher, IsMatcher}
use toolbridge_api.Diff.Compute.{hunk_of, diff_lines, compute_line_diff}
use toolbridge_api.Diff.Annotate.{line_count, orig_len, new_len}
use toolbridge_api.Diff.Tiles.{
  chunk, IsPiece, Tiles, HasCounts, originals, proposals, originals-Tiles, proposals-Tiles,
}
use toolbridge_api.Diff.Merge.{merge-Tiles}
use mathlib.Core.Option.{none}

module _ (a b : List String) where
  Covers-le : (i j : ℕ) (os : List Opcode) → Covers a b i j os → (i ≤ length a) × (j ≤ length b)
  Covers-le i j [] c = (omega (arith, c.0), omega (arith, c.1))
  Covers-le i j (o ∷ os) c =
      let (p, q) = Covers-le o.i2 o.j2 os c.5 in (omega (arith, p, c.2), omega (arith, q, c.3))

  -- the hunk of an opcode, by its tag
  hunk_of-IsPiece :
      (tag : Tag) (i1 i2 j1 j2 k : ℕ)
      → i1 ≤ i2
      → j1 ≤ j2
      → i2 ≤ length a
      → j2 ≤ length b
      → TagHolds a b tag i1 i2 j1 j2
      → let h = hunk_of false k a b (record { tag = tag; i1 = i1; i2 = i2; j1 = j1; j2 = j2 }) in
        IsPiece a b i1 j1 h × (i2 ≡ i1 + orig_len h) × (j2 ≡ j1 + new_len h) × HasCounts h
  unfolding hunk_of
  hunk_of-IsPiece Tag.equal i1 i2 j1 j2 k hi hj hi2 hj2 holds = (
    record {
      orig_text = refl;
      new_text = ap join holds;
      orig_fits = omega arith;
      new_fits = omega arith;
      kind_fits = refl;
    },
    omega arith,
    omega arith,
    (refl, refl),
  )
  hunk_of-IsPiece Tag.replace i1 i2 j1 j2 k hi hj hi2 hj2 holds = (
    record {
      orig_text = refl;
      new_text = refl;
      orig_fits = omega arith;
      new_fits = omega arith;
      kind_fits = tt;
    },
    omega arith,
    omega arith,
    (refl, refl),
  )
  hunk_of-IsPiece Tag.delete i1 i2 j1 j2 k hi hj hi2 hj2 holds = (
    record {
      orig_text = refl;
      new_text = refl;
      orig_fits = omega arith;
      new_fits = omega arith;
      kind_fits = refl;
    },
    omega arith,
    omega arith,
    (refl, refl),
  )
  hunk_of-IsPiece Tag.insert i1 i2 j1 j2 k hi hj hi2 hj2 holds = (
    record {
      orig_text = refl;
      new_text = refl;
      orig_fits = omega arith;
      new_fits = omega arith;
      kind_fits = refl;
    },
    omega arith,
    omega arith,
    (refl, refl),
  )

  hunks_of-Tiles :
      (k i j : ℕ) (os : List Opcode)
      → Covers a b i j os
      → Tiles a b i j (map (hunk_of false k a b) os) × All HasCounts (map (hunk_of false k a b) os)
  hunks_of-Tiles k i j [] c = (c, tt)
  hunks_of-Tiles k i j (o ∷ os) (ei, ej, hi, hj, holds, c) =
      let hs = map (hunk_of false k a b) os in
      let h = hunk_of false k a b o in
      let ends = Covers-le o.i2 o.j2 os c in
      let (t, counts) = hunks_of-Tiles k o.i2 o.j2 os c in
      let (p, ei2, ej2, count) =
        hunk_of-IsPiece o.tag o.i1 o.i2 o.j1 o.j2 k (omega arith) (omega arith) ends.0 ends.1
          holds in
      (
        subst₂ (λ x y. IsPiece a b x y h × Tiles a b (x + orig_len h) (y + new_len h) hs) ei ej
            (p, subst₂ (λ x y. Tiles a b x y hs) ei2 ej2 t),
        (count, counts),
      )

-- the count of a text's lines, where none is stored
line_count-none : (s : String) → line_count none s ≡ length (splitlines s)
unfolding splitlines
line_count-none s = elim (Bool-cases (s == "")) [ inl e ↦ rw ((eq_iff s "").0 e) | inr e ↦ rw e ]

module _ (get_opcodes : Matcher) (m : IsMatcher get_opcodes) (k : ℕ) where
  diff_lines-Tiles :
      (original proposed : String) (a b : List String)
      → join a ≡ original
      → join b ≡ proposed
      → line_count none original ≡ length a
      → line_count none proposed ≡ length b
      → Tiles a b 0 0 (diff_lines get_opcodes original proposed k false a b)
  unfolding diff_lines
  diff_lines-Tiles original proposed [] [] ja jb la lb = (refl, refl)
  diff_lines-Tiles original proposed [] (y ∷ b) ja jb la lb = (
    record {
      orig_text = refl;
      new_text =
          sym jb
          ∙ ap join (sym (take-length (y ∷ b)))
          ∙ ap (λ n. join (chunk 0 n (y ∷ b))) (sym lb);
      orig_fits = omega arith;
      new_fits = omega (arith, lb);
      kind_fits = refl;
    },
    (omega arith, omega (arith, lb)),
  )
  diff_lines-Tiles original proposed (x ∷ a) [] ja jb la lb = (
    record {
      orig_text =
          sym ja
          ∙ ap join (sym (take-length (x ∷ a)))
          ∙ ap (λ n. join (chunk 0 n (x ∷ a))) (sym la);
      new_text = refl;
      orig_fits = omega (arith, la);
      new_fits = omega arith;
      kind_fits = refl;
    },
    (omega (arith, la), omega arith),
  )
  diff_lines-Tiles original proposed (x ∷ a) (y ∷ b) ja jb la lb =
      let (t, counts) =
        hunks_of-Tiles (x ∷ a) (y ∷ b) k 0 0 (get_opcodes (x ∷ a) (y ∷ b))
          (m.covers (x ∷ a) (y ∷ b)) in
      merge-Tiles (x ∷ a) (y ∷ b) 0 0 _ counts t

  -- The hunks of `compute_line_diff`, not truncated, are the lines of both texts cut into pieces.
  pub compute_line_diff-Tiles :
      (original proposed : String)
      → Tiles
          (splitlines original)
          (splitlines proposed)
          0
          0
          (compute_line_diff get_opcodes original proposed k false)
  unfolding compute_line_diff
  compute_line_diff-Tiles original proposed =
      diff_lines-Tiles original proposed (splitlines original) (splitlines proposed)
        (join-splitlines original) (join-splitlines proposed) (line_count-none original)
        (line_count-none proposed)

  -- Whatever the matcher, so long as it keeps its documentation: the original texts of the hunks
  -- that `compute_line_diff` gives without truncation join to the original, and their proposed
  -- texts join to the proposed text.
  pub compute_line_diff-covers :
      (original proposed : String)
      → let hunks = compute_line_diff get_opcodes original proposed k false in
        (originals hunks ≡ original) × (proposals hunks ≡ proposed)
  compute_line_diff-covers original proposed =
      let t = compute_line_diff-Tiles original proposed in
      (
        originals-Tiles (splitlines original) (splitlines proposed) 0 0 _ t
            ∙ join-splitlines original,
        proposals-Tiles (splitlines original) (splitlines proposed) 0 0 _ t
            ∙ join-splitlines proposed,
      )
