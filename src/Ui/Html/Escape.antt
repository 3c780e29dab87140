-- ===== src/Ui/Html/Escape.antt =====
-- Python's `html.escape`, and how often a character stands in a text.
use Prim.Native.String.{◌++◌ as ◌<>◌}
use text.Mathlib.TextLemmas.{nil-append, cons-append}
use toolbridge_api.Prelude.{
  ℕ, zero, suc, ◌+◌, String, Bool, Char, code, ◌≡◌, refl, ap, inl, inr, true, false, arith, nat_eq,
  Bool-cases, if◌then◌else◌,
}
use toolbridge_api.Prelude.Text.{str, digit, str-rec}

escape_char : Char → String
escape_char c =
    if nat_eq (code c) 38
    then "&amp;"
    else if nat_eq (code c) 60
    then "&lt;"
    else if nat_eq (code c) 62
    then "&gt;"
    else if nat_eq (code c) 34
    then "&quot;"
    else if nat_eq (code c) 39
    then "&#x27;"
    else String.◌∷◌ c ""

-- `html.escape(s)`
unfoldable pub escape : String → String
unfolding escape_char
escape String.[] = ""
escape (String.◌∷◌ c s) = escape_char c <> escape s

-- the number of "<" in a text
unfoldable pub opened : String → ℕ
opened String.[] = 0
opened (String.◌∷◌ c s) = let rest = opened s in if nat_eq (code c) 60 then suc rest else rest

pub opened-append : (s t : String) → opened (s <> t) ≡ opened s + opened t
unfolding opened
opened-append String.[] t = omega (arith, ap opened (nil-append t))
opened-append (String.◌∷◌ c s) t = elim (Bool-cases (nat_eq (code c) 60)) [
  | inl e ↦ rw (cons-append c s t, e, opened) (omega (arith, opened-append s t))
  | inr e ↦ rw (cons-append c s t, e, opened) (opened-append s t)
]

either-none :
    (b : Bool) (s t : String) → opened s ≡ 0 → opened t ≡ 0 → opened (if b then s else t) ≡ 0
either-none true s t h k = h
either-none false s t h k = k

opened-escape_char : (c : Char) → opened (escape_char c) ≡ 0
unfolding escape_char opened
opened-escape_char c = elim (Bool-cases (nat_eq (code c) 60)) [
  | inl e ↦ rw (e, escape_char) (either-none (nat_eq (code c) 38) "&amp;" "&lt;" refl refl)
  | inr e ↦
      let same : opened (String.◌∷◌ c "") ≡ 0 = rw (e, opened) in
      let apostrophe = either-none (nat_eq (code c) 39) "&#x27;" (String.◌∷◌ c "") refl same in
      let quote = either-none (nat_eq (code c) 34) "&quot;" _ refl apostrophe in
      let greater = either-none (nat_eq (code c) 62) "&gt;" _ refl quote in
      rw (e, escape_char) (either-none (nat_eq (code c) 38) "&amp;" _ refl greater)
]

-- An escaped text has no "<".
pub opened-escape : (s : String) → opened (escape s) ≡ 0
unfolding escape opened
opened-escape String.[] = refl
opened-escape (String.◌∷◌ c s) =
    omega (arith, opened-append (escape_char c) (escape s), opened-escape_char c, opened-escape s)

opened-digit : (d : ℕ) → opened (digit d) ≡ 0
unfolding opened
opened-digit zero = refl
opened-digit (suc zero) = refl
opened-digit (suc (suc zero)) = refl
opened-digit (suc (suc (suc zero))) = refl
opened-digit (suc (suc (suc (suc zero)))) = refl
opened-digit (suc (suc (suc (suc (suc zero))))) = refl
opened-digit (suc (suc (suc (suc (suc (suc zero)))))) = refl
opened-digit (suc (suc (suc (suc (suc (suc (suc zero))))))) = refl
opened-digit (suc (suc (suc (suc (suc (suc (suc (suc zero)))))))) = refl
opened-digit (suc (suc (suc (suc (suc (suc (suc (suc (suc d))))))))) = refl

both_none : (s t : String) → opened s ≡ 0 → opened t ≡ 0 → opened (s <> t) ≡ 0
both_none s t h k = omega (arith, opened-append s t, h, k)

pub opened-str : (n : ℕ) → opened (str n) ≡ 0
unfolding opened
opened-str = str-rec (λ s. opened s ≡ 0) refl opened-digit both_none
