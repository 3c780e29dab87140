-- ===== src/Diff/Lines/Split.antt =====
-- `str.split("\n")` and `"\n".join`.
use Prim.Native.String.{◌++◌ as ◌<>◌}
use text.Mathlib.TextLemmas.{nil-append, cons-append}
use text.Mathlib.TextEquality.{Char-path}
use toolbridge_api.Prelude.{
  ℕ, zero, suc, ◌+◌, String, Char, code, ◌≡◌, refl, sym, ap, subst, subst₂, ◌∙◌, inl, inr, false,
  true, List, [], ◌∷◌, ◌++◌, arith, nat_eq, nat_eq_iff, Bool-cases, length, length-append, All,
}
use toolbridge_api.Prelude.Text.{join_with, str, digit, str-rec}
use toolbridge_api.Diff.Lines.{cons_first, split_lf}

newline : (c : Char) → nat_eq (code c) 10 ≡ true → String.◌∷◌ c "" ≡ "\n"
newline c e = ap (λ d. String.◌∷◌ d "") (Char-path c "\n" ((nat_eq_iff (code c) 10).0 e))

-- there is a first line
pub split_lf-cons : (s : String) → (l : String) × (ls : List String) × (split_lf s ≡ l ∷ ls)
unfolding split_lf cons_first
split_lf-cons String.[] = ("", [], refl)
split_lf-cons (String.◌∷◌ c s) =
    let (l, ls, e) = split_lf-cons s in
    elim (Bool-cases (nat_eq (code c) 10)) [
      | inl t ↦ ("", split_lf s, rw (t, split_lf))
      | inr f ↦ (String.◌∷◌ c l, ls, rw (f, e, split_lf, cons_first))
    ]

join_with-first :
    (c : Char) (l : String) (ls : List String)
    → join_with "\n" (String.◌∷◌ c l ∷ ls) ≡ String.◌∷◌ c (join_with "\n" (l ∷ ls))
join_with-first c l [] = refl
join_with-first c l (m ∷ ls) = cons-append c l ("\n" <> join_with "\n" (m ∷ ls))

-- The lines of a text, joined by a line feed, are the text.
pub join_with-split_lf : (s : String) → join_with "\n" (split_lf s) ≡ s
unfolding split_lf cons_first
join_with-split_lf String.[] = refl
join_with-split_lf (String.◌∷◌ c s) =
    let (l, ls, e) = split_lf-cons s in
    let rest : join_with "\n" (l ∷ ls) ≡ s =
      ap (λ k. join_with "\n" k) (sym e) ∙ join_with-split_lf s in
    elim (Bool-cases (nat_eq (code c) 10)) [
      | inl t ↦
          let n : "\n" <> s ≡ String.◌∷◌ c s =
            ap (λ x. x <> s) (sym (newline c t))
            ∙ cons-append c "" s
            ∙ ap (λ x. String.◌∷◌ c x) (nil-append s) in
          rw (t, e, rest, split_lf) (nil-append ("\n" <> s) ∙ n)
      | inr f ↦
          rw (f, e, split_lf, cons_first) (join_with-first c l ls ∙ ap (λ x. String.◌∷◌ c x) rest)
    ]

cons_first-append :
    (c : Char) (l : String) (ls ms : List String)
    → cons_first c ((l ∷ ls) ++ ms) ≡ cons_first c (l ∷ ls) ++ ms
unfolding cons_first
cons_first-append c l ls ms = refl

-- A line feed between two texts ends a line.
pub split_lf-append : (s t : String) → split_lf (s <> ("\n" <> t)) ≡ split_lf s ++ split_lf t
unfolding split_lf cons_first
split_lf-append String.[] t =
    ap split_lf
      (nil-append ("\n" <> t) ∙ cons-append "\n" "" t ∙ ap (λ x. String.◌∷◌ "\n" x) (nil-append t))
split_lf-append (String.◌∷◌ c s) t =
    let (l, ls, e) = split_lf-cons s in
    elim (Bool-cases (nat_eq (code c) 10)) [
      | inl b ↦ rw (cons-append c s ("\n" <> t), b, split_lf-append s t, split_lf)
      | inr b ↦ rw (cons-append c s ("\n" <> t), b, split_lf-append s t, e, split_lf, cons_first)
    ]

-- a text with one line
abbrev pub OneLine : String → Type 0
OneLine s = length (split_lf s) ≡ 1

OneLine-cons :
    (c : Char) (l : String) → nat_eq (code c) 10 ≡ false → OneLine l → OneLine (String.◌∷◌ c l)
unfolding split_lf cons_first
OneLine-cons c l f h =
    let (m, ms, e) = split_lf-cons l in rw (f, e, split_lf, cons_first) (ap length (sym e) ∙ h)

pub split_lf-OneLine : (s : String) → All OneLine (split_lf s)
unfolding split_lf cons_first
split_lf-OneLine String.[] = (refl, tt)
split_lf-OneLine (String.◌∷◌ c s) =
    let (l, ls, e) = split_lf-cons s in
    let rest : All OneLine (l ∷ ls) = subst (All OneLine) e (split_lf-OneLine s) in
    elim (Bool-cases (nat_eq (code c) 10)) [
      | inl b ↦ rw (b, split_lf) (refl, split_lf-OneLine s)
      | inr b ↦ rw (b, e, split_lf, cons_first) (OneLine-cons c l b rest.0, rest.1)
    ]

-- A list of lines that is not empty is as long as its text.
pub length-split_lf-join_with :
    (l : String) (ls : List String)
    → All OneLine (l ∷ ls)
    → length (split_lf (join_with "\n" (l ∷ ls))) ≡ length (l ∷ ls)
length-split_lf-join_with l [] (h, hs) = h
length-split_lf-join_with l (m ∷ ls) (h, hs) = omega (
  arith,
  ap length (split_lf-append l (join_with "\n" (m ∷ ls))),
  length-append (split_lf l) (split_lf (join_with "\n" (m ∷ ls))),
  length-split_lf-join_with m ls hs,
  h,
)

length-cons_first :
    (c : Char) (l : String) (ls : List String) → length (cons_first c (l ∷ ls)) ≡ length (l ∷ ls)
unfolding cons_first
length-cons_first c l ls = refl

-- Two texts in a row share a line.
length-split_lf-concat :
    (s t : String) → length (split_lf (s <> t)) + 1 ≡ length (split_lf s) + length (split_lf t)
unfolding split_lf cons_first
length-split_lf-concat String.[] t = omega (arith, ap (λ x. length (split_lf x)) (nil-append t))
length-split_lf-concat (String.◌∷◌ c s) t =
    let (l, ls, e) = split_lf-cons s in
    let (m, ms, f) = split_lf-cons (s <> t) in
    let rest : length (m ∷ ms) + 1 ≡ length (l ∷ ls) + length (split_lf t) =
      subst₂ (λ x y. length x + 1 ≡ length y + length (split_lf t)) f e
        (length-split_lf-concat s t) in
    elim (Bool-cases (nat_eq (code c) 10)) [
      | inl b ↦ rw (cons-append c s t, b, e, f, split_lf) (omega (arith, rest))
      | inr b ↦ rw (cons-append c s t, b, e, f, split_lf, cons_first) (omega (arith, rest))
    ]

pub OneLine-append : (s t : String) → OneLine s → OneLine t → OneLine (s <> t)
OneLine-append s t h k = omega (arith, length-split_lf-concat s t, h, k)

OneLine-digit : (d : ℕ) → OneLine (digit d)
unfolding split_lf cons_first
OneLine-digit zero = refl
OneLine-digit (suc zero) = refl
OneLine-digit (suc (suc zero)) = refl
OneLine-digit (suc (suc (suc zero))) = refl
OneLine-digit (suc (suc (suc (suc zero)))) = refl
OneLine-digit (suc (suc (suc (suc (suc zero))))) = refl
OneLine-digit (suc (suc (suc (suc (suc (suc zero)))))) = refl
OneLine-digit (suc (suc (suc (suc (suc (suc (suc zero))))))) = refl
OneLine-digit (suc (suc (suc (suc (suc (suc (suc (suc zero)))))))) = refl
OneLine-digit (suc (suc (suc (suc (suc (suc (suc (suc (suc d))))))))) = refl

pub OneLine-str : (n : ℕ) → OneLine (str n)
unfolding split_lf
OneLine-str = str-rec OneLine refl OneLine-digit OneLine-append
