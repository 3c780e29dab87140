-- ===== src/Diff/Ranges.antt =====
-- The identifiers and the line ranges that `annotate_hunks_with_ids` gives.
use Prim.Native.String.{◌++◌ as ◌<>◌}
use mathlib.Core.Option.{some-injective}
use text.Mathlib.TextLemmas.{append_cancel_left}
use toolbridge_api.Prelude.{
  ℕ, zero, suc, ◌+◌, ◌-◌, ◌≤◌, ◌<◌, String, ◌≡◌, ◌≢◌, refl, sym, ap, ap₂, subst, subst₂, ◌∙◌, true,
  false, Option, none, some, List, [], ◌∷◌, map, arith, length, take, drop, slice, ltb, All,
}
use toolbridge_api.Prelude.Text.{join, str, str_injective}
use toolbridge_api.Diff.Types.{Kind, DiffHunk}
use toolbridge_api.Diff.Lines.{splitlines}
use toolbridge_api.Diff.Matcher.{Matcher, IsMatcher}
use toolbridge_api.Diff.Compute.{compute_line_diff}
use toolbridge_api.Diff.Annotate.{
  orig_len, new_len, orig_range, new_range, hunk_id, annotated, annotate_loop,
  annotate_hunks_with_ids,
}
use toolbridge_api.Diff.Tiles.{chunk, KindFits, IsPiece, Tiles}
use toolbridge_api.Diff.Cover.{compute_line_diff-Tiles}

-- `text` stands on the lines from `start` to `end` of `lines`, counted from 1; without a range it
-- is empty.
abbrev pub StandsAt : List String → String → Option ℕ → Option ℕ → Type 0
StandsAt lines text (some start) (some end) =
    (1 ≤ start) × (start ≤ end) × (end ≤ length lines) × (text ≡ join (slice (start - 1) end lines))
StandsAt lines text none none = text ≡ ""
StandsAt lines text _ _ = ⊥

pub record IsLocated (a b : List String) (h : DiffHunk) : Type 0 where
  pub orig_located : StandsAt a h.original h.orig_start h.orig_end
  pub new_located : StandsAt b h.proposed h.new_start h.new_end

-- the range of `n` lines that begin at the index `i`
StandsAt-range :
    (lines : List String) (text : String) (i n : ℕ)
    → text ≡ join (chunk i n lines)
    → i + n ≤ length lines
    → StandsAt lines text
        (orig_range Kind.modified (i + 1) n).0
        (orig_range Kind.modified (i + 1) n).1
StandsAt-range lines text i zero e h = e
StandsAt-range lines text i (suc n) e h =
    let starts : ltb 0 (suc n) ≡ true = ground arith in
    rw starts (
      omega arith,
      omega arith,
      omega arith,
      e
          ∙ ap₂ (λ x y. join (take x (drop y lines)))
              (let s : suc n ≡ i + 1 + suc n - 1 - (i + 1 - 1) = omega arith in s)
              (let s : i ≡ i + 1 - 1 = omega arith in s),
    )

module _ (a b : List String) (i j : ℕ) (h : DiffHunk) (p : IsPiece a b i j h) where
  orig_range-StandsAt :
      (k : Kind)
      → KindFits k h
      → StandsAt a h.original
          (orig_range k (i + 1) (orig_len h)).0
          (orig_range k (i + 1) (orig_len h)).1
  orig_range-StandsAt Kind.added f = p.orig_text ∙ ap (λ n. join (chunk i n a)) f
  orig_range-StandsAt Kind.unchanged f =
      StandsAt-range a h.original i (orig_len h) p.orig_text p.orig_fits
  orig_range-StandsAt _ f = StandsAt-range a h.original i (orig_len h) p.orig_text p.orig_fits

  new_range-StandsAt :
      (k : Kind)
      → KindFits k h
      → StandsAt b h.proposed
          (new_range k (j + 1) (new_len h)).0
          (new_range k (j + 1) (new_len h)).1
  new_range-StandsAt Kind.removed f = p.new_text ∙ ap (λ n. join (chunk j n b)) f
  new_range-StandsAt Kind.unchanged f =
      StandsAt-range b h.proposed j (new_len h) p.new_text p.new_fits
  new_range-StandsAt _ f = StandsAt-range b h.proposed j (new_len h) p.new_text p.new_fits

  annotated-IsLocated : (n : ℕ) → IsLocated a b (annotated n (i + 1) (j + 1) h)
  annotated-IsLocated n = record {
    orig_located = orig_range-StandsAt h.kind p.kind_fits;
    new_located = new_range-StandsAt h.kind p.kind_fits;
  }

module _ (a b : List String) where
  annotate_loop-IsLocated :
      (hs : List DiffHunk) (n i j x y : ℕ)
      → i + 1 ≡ x
      → j + 1 ≡ y
      → Tiles a b i j hs
      → All (IsLocated a b) (annotate_loop n x y hs)
  unfolding annotate_loop
  annotate_loop-IsLocated [] n i j x y ex ey t = tt
  annotate_loop-IsLocated (h ∷ hs) n i j x y ex ey (p, t) = (
    subst₂ (λ u v. IsLocated a b (annotated n u v h)) ex ey (annotated-IsLocated a b i j h p n),
    annotate_loop-IsLocated hs (n + 1) (i + orig_len h) (j + new_len h) (x + orig_len h)
        (y + new_len h) (omega arith) (omega arith) t,
  )

-- For every matcher that keeps its documentation: each hunk of the annotated diff, made
-- without truncation, stands, in both texts, exactly on the lines that its range names, which lie
-- within the text, and a hunk without a range in a text has no text of it.
pub annotate-IsLocated :
    (get_opcodes : Matcher) (original proposed : String) (k : ℕ)
    → IsMatcher get_opcodes
    → All
        (IsLocated (splitlines original) (splitlines proposed))
        (annotate_hunks_with_ids (compute_line_diff get_opcodes original proposed k false))
unfolding annotate_hunks_with_ids
annotate-IsLocated get_opcodes original proposed k m =
    annotate_loop-IsLocated (splitlines original) (splitlines proposed) _ 0 0 0 1 1 (omega arith)
      (omega arith) (compute_line_diff-Tiles get_opcodes m k original proposed)

-- "h" and the decimal of n, of n + 1, and so on, `count` of them
abbrev pub ids_from : ℕ → ℕ → List (Option String)
ids_from n zero = []
ids_from n (suc count) = some ("h" <> str n) ∷ ids_from (n + 1) count

annotate_loop-ids :
    (hs : List DiffHunk) (i x y : ℕ)
    → map (λ (h : DiffHunk). h.id) (annotate_loop i x y hs) ≡ ids_from (i + 1) (length hs)
unfolding annotate_loop
annotate_loop-ids [] i x y = refl
annotate_loop-ids (h ∷ hs) i x y =
    ap (λ ids. some ("h" <> str (i + 1)) ∷ ids)
      (annotate_loop-ids hs (i + 1) (x + orig_len h) (y + new_len h))

pub hunk_id_injective : (i j : ℕ) → hunk_id i ≡ hunk_id j → i ≡ j
hunk_id_injective i j e =
    omega
      (arith, str_injective (i + 1) (j + 1) (append_cancel_left "h" (str (i + 1)) (str (j + 1)) e))

-- no two members of the list are equal
abbrev pub Distinct : List (Option String) → Type 0
Distinct [] = Unit
Distinct (x ∷ xs) = All (λ y. x ≢ y) xs × Distinct xs

numbered_injective : (m n : ℕ) → "h" <> str m ≡ "h" <> str n → m ≡ n
numbered_injective m n e = str_injective m n (append_cancel_left "h" (str m) (str n) e)

ids_from-ne :
    (m n count : ℕ)
    → m < n
    → All (λ (y : Option String). some ("h" <> str m) ≢ y) (ids_from n count)
ids_from-ne m n zero h = tt
ids_from-ne m n (suc count) h = (
  λ e.
      absurd
        (omega (arith, numbered_injective m n (some-injective ("h" <> str m) ("h" <> str n) e))),
  ids_from-ne m (n + 1) count (omega arith),
)

ids_from-Distinct : (n count : ℕ) → Distinct (ids_from n count)
ids_from-Distinct n zero = tt
ids_from-Distinct n (suc count) =
    (ids_from-ne n (n + 1) count (omega arith), ids_from-Distinct (n + 1) count)

-- The annotated hunks are named h1, h2, … in their order, "h" and the decimal of the number of the
-- hunk counted from 1, as many as there are hunks, and no two of these names are equal.
pub annotate-ids :
    (hunks : List DiffHunk)
    → let ids = map (λ (h : DiffHunk). h.id) (annotate_hunks_with_ids hunks) in
      (ids ≡ ids_from 1 (length hunks)) × Distinct ids
unfolding annotate_hunks_with_ids
annotate-ids hunks =
    let e = annotate_loop-ids hunks 0 1 1 in
    (e, subst Distinct (sym e) (ids_from-Distinct 1 (length hunks)))
