-- ===== src/Diff/Compute/Bounds.antt =====
-- mcp/toolbridge_mcp/utils/diff.py: the length of `truncate_text`.
use Prim.Native.String.{◌++◌ as ◌<>◌}
use text.Mathlib.TextLemmas.{append_assoc}
use toolbridge_api.Prelude.{
  ℕ, zero, suc, ◌+◌, ◌-◌, ◌/◌, ◌≤◌, ◌<◌, String, ◌≡◌, refl, sym, ap, ◌∙◌, inl, inr, false, List, [],
  ◌∷◌, arith, ltb, nat_eq, Bool-cases, length, take, drop, length-append, length-take, length-drop,
  All,
}
use toolbridge_api.Prelude.Text.{join_with, str}
use toolbridge_api.Diff.Lines.{split_lf}
use toolbridge_api.Diff.Lines.Split.{
  OneLine, OneLine-append, OneLine-str, split_lf-OneLine, split_lf-append,
  length-split_lf-join_with,
}
use toolbridge_api.Diff.Compute.{last_lines, truncate_text}

take-All : (P : String → Type 0) (n : ℕ) (ls : List String) → All P ls → All P (take n ls)
take-All P zero ls h = tt
take-All P (suc n) [] h = tt
take-All P (suc n) (l ∷ ls) (h, hs) = (h, take-All P n ls hs)

drop-All : (P : String → Type 0) (n : ℕ) (ls : List String) → All P ls → All P (drop n ls)
drop-All P zero ls h = h
drop-All P (suc n) [] h = tt
drop-All P (suc n) (l ∷ ls) (h, hs) = drop-All P n ls hs

-- lines that are at least one are as many as those of their text
length-joined :
    (ls : List String)
    → 1 ≤ length ls
    → All OneLine ls
    → length (split_lf (join_with "\n" ls)) ≡ length ls
length-joined [] h a = absurd (omega arith)
length-joined (l ∷ ls) h a = length-split_lf-join_with l ls a

-- the line between the first and the last lines
abbrev note_line : ℕ → String
note_line n = "... (" <> (str n <> " lines unchanged) ...")

note_line-OneLine : (n : ℕ) → OneLine (note_line n)
unfolding split_lf
note_line-OneLine n =
    OneLine-append "... (" (str n <> " lines unchanged) ...") refl
      (OneLine-append (str n) " lines unchanged) ..." (OneLine-str n) refl)

note_line-parts :
    (n : ℕ) (a b : String)
    → a <> ("\n... (" <> (str n <> (" lines unchanged) ...\n" <> b)))
      ≡ a <> ("\n" <> (note_line n <> ("\n" <> b)))
note_line-parts n a b =
    let first : "\n... (" <> (str n <> (" lines unchanged) ...\n" <> b))
        ≡ "\n" <> ("... (" <> (str n <> (" lines unchanged) ...\n" <> b))) =
      append_assoc "\n" "... (" (str n <> (" lines unchanged) ...\n" <> b)) in
    let last : " lines unchanged) ...\n" <> b ≡ " lines unchanged) ..." <> ("\n" <> b) =
      append_assoc " lines unchanged) ..." "\n" b in
    ap (λ x. a <> x)
      (first
        ∙ ap (λ x. "\n" <> ("... (" <> (str n <> x))) last
        ∙ ap (λ x. "\n" <> x)
            (sym (
              append_assoc "... (" (str n <> " lines unchanged) ...") ("\n" <> b)
              ∙ ap (λ x. "... (" <> x) (append_assoc (str n) " lines unchanged) ..." ("\n" <> b)))))

-- three texts with line feeds between them
three_parts :
    (a note b : String)
    → length (split_lf (a <> ("\n" <> (note <> ("\n" <> b)))))
      ≡ length (split_lf a) + (length (split_lf note) + length (split_lf b))
three_parts a note b = omega (
  arith,
  ap length (split_lf-append a (note <> ("\n" <> b))),
  ap length (split_lf-append note b),
  length-append (split_lf a) (split_lf (note <> ("\n" <> b))),
  length-append (split_lf note) (split_lf b),
)

-- A text of more than `max_lines` lines, where that is at least two, is cut to at most one line more;
-- any other text is left alone.
pub length-truncate_text :
    (max_lines : ℕ) (s : String)
    → 2 ≤ max_lines
    → length (split_lf (truncate_text max_lines s)) ≤ max_lines + 1
unfolding truncate_text last_lines
length-truncate_text max_lines s h =
    let lines = split_lf s in
    let half = max_lines / 2 in
    let first = take half lines in
    let last = drop (length lines - half) lines in
    let many : All OneLine lines = split_lf-OneLine s in
    elim (Bool-cases (ltb max_lines (length lines))) [
      | inl e ↦
          let long : max_lines < length lines = ground (arith, e) in
          let a : length first ≡ half = length-take half lines (omega (arith, long)) in
          let b : length last ≡ half =
            omega (arith, length-drop (length lines - half) lines, long) in
          let half_nonzero : nat_eq half 0 ≡ false = ground (arith, h) in
          rw
            (
              e,
              half_nonzero,
              truncate_text,
              last_lines,
              note_line-parts (length lines - max_lines) (join_with "\n" first)
                  (join_with "\n" last),
            )
            (omega (
              arith,
              three_parts (join_with "\n" first) (note_line (length lines - max_lines))
                  (join_with "\n" last),
              note_line-OneLine (length lines - max_lines),
              length-joined first (omega (arith, a, h)) (take-All OneLine half lines many),
              length-joined last (omega (arith, b, h))
                  (drop-All OneLine (length lines - half) lines many),
              a,
              b,
              h,
            ))
      | inr e ↦ rw (e, truncate_text) (ground (arith, e))
    ]
