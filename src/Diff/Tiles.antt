-- ===== src/Diff/Tiles.antt =====
-- Hunks as pieces of the lines of the two texts: the invariant behind the theorems on the diff.
use Prim.Native.String.{◌++◌ as ◌<>◌}
use toolbridge_api.Prelude.{
  ℕ, ◌+◌, ◌≤◌, String, ◌≡◌, sym, ap, ap₂, ◌∙◌, List, [], ◌∷◌, ◌++◌, map, length, take, drop,
  take-append-take, take-append-drop, drop-drop, drop-length, or_zero,
}
use toolbridge_api.Prelude.Text.{join, join-append}
use toolbridge_api.Diff.Types.{Kind, DiffHunk}
use toolbridge_api.Diff.Annotate.{orig_len, new_len}

-- `xs[i : i + n]`
abbrev pub chunk : ℕ → ℕ → List String → List String
chunk i n xs = take n (drop i xs)

-- What a hunk's kind says of its texts and its line counts.
abbrev pub KindFits : Kind → DiffHunk → Type 0
KindFits Kind.unchanged h = h.original ≡ h.proposed
KindFits Kind.added h = orig_len h ≡ 0
KindFits Kind.removed h = new_len h ≡ 0
KindFits Kind.modified h = Unit

-- `h` is the text of the lines from `i` of `a` and from `j` of `b`.
pub record IsPiece (a b : List String) (i j : ℕ) (h : DiffHunk) : Type 0 where
  pub orig_text : h.original ≡ join (chunk i (orig_len h) a)
  pub new_text : h.proposed ≡ join (chunk j (new_len h) b)
  pub orig_fits : i + orig_len h ≤ length a
  pub new_fits : j + new_len h ≤ length b
  pub kind_fits : KindFits h.kind h

-- The hunks are pieces that follow one another from `i` and `j` to the ends.
abbrev pub Tiles : List String → List String → ℕ → ℕ → List DiffHunk → Type 0
Tiles a b i j [] = (i ≡ length a) × (j ≡ length b)
Tiles a b i j (h ∷ hs) = IsPiece a b i j h × Tiles a b (i + orig_len h) (j + new_len h) hs

-- The stored line counts are the ones that count.
abbrev pub HasCounts : DiffHunk → Type 0
HasCounts h = (or_zero h.orig_line_count ≡ orig_len h) × (or_zero h.new_line_count ≡ new_len h)

abbrev pub originals : List DiffHunk → String
originals hs = join (map (λ (h : DiffHunk). h.original) hs)

abbrev pub proposals : List DiffHunk → String
proposals hs = join (map (λ (h : DiffHunk). h.proposed) hs)

pub join-chunk-chunk :
    (i m n : ℕ) (xs : List String)
    → join (chunk i m xs) <> join (chunk (i + m) n xs) ≡ join (chunk i (m + n) xs)
join-chunk-chunk i m n xs =
    sym (join-append (chunk i m xs) (chunk (i + m) n xs))
    ∙ ap (λ ys. join (take m (drop i xs) ++ take n ys)) (sym (drop-drop m i xs))
    ∙ ap join (take-append-take m n (drop i xs))

join-chunk-drop :
    (i m : ℕ) (xs : List String) → join (chunk i m xs) <> join (drop (i + m) xs) ≡ join (drop i xs)
join-chunk-drop i m xs =
    sym (join-append (chunk i m xs) (drop (i + m) xs))
    ∙ ap (λ ys. join (take m (drop i xs) ++ ys)) (sym (drop-drop m i xs))
    ∙ ap join (take-append-drop m (drop i xs))

module _ (a b : List String) where
  pub originals-Tiles :
      (i j : ℕ) (hs : List DiffHunk) → Tiles a b i j hs → originals hs ≡ join (drop i a)
  originals-Tiles i j [] t = rw (t.0, drop-length)
  originals-Tiles i j (h ∷ hs) (p, t) =
      ap₂ ◌<>◌ p.orig_text (originals-Tiles (i + orig_len h) (j + new_len h) hs t)
      ∙ join-chunk-drop i (orig_len h) a

  pub proposals-Tiles :
      (i j : ℕ) (hs : List DiffHunk) → Tiles a b i j hs → proposals hs ≡ join (drop j b)
  proposals-Tiles i j [] t = rw (t.1, drop-length)
  proposals-Tiles i j (h ∷ hs) (p, t) =
      ap₂ ◌<>◌ p.new_text (proposals-Tiles (i + orig_len h) (j + new_len h) hs t)
      ∙ join-chunk-drop j (new_len h) b
