-- ===== src/Prelude/Text.antt =====
-- Python's `str` as the native texts: joining, decimal numbers and their reading back.
use Prim.Native.Nat.{ℕ, zero, suc, ◌+◌, ◌-◌, ◌*◌, ◌/◌, ◌%◌, ◌<◌}
use Prim.Native.Char.{code}
use Prim.Native.String.{String}
use Prim.Native.String.{◌++◌ as ◌<>◌}
use mathlib.Core.Path.{◌≡◌, refl, sym, ap, ◌∙◌}
use mathlib.Core.Logic.{inl, inr}
use mathlib.Core.Option.{Option, none, some}
use mathlib.Core.List.{List, [], ◌∷◌, ◌++◌}
use native.Mathlib.Omega.{arith}
use text.Mathlib.TextLemmas.{nil-append, cons-append, append_assoc}
use toolbridge_api.Prelude.Tests.{ltb, nat_eq, nat_eq_iff, Bool-cases, if◌then◌else◌}

-- `"".join(parts)`
abbrev pub join : List String → String
join [] = ""
join (s ∷ ss) = s <> join ss

-- `sep.join(parts)`
abbrev pub join_with : String → List String → String
join_with sep [] = ""
join_with sep (s ∷ []) = s
join_with sep (s ∷ t ∷ ss) = s <> (sep <> join_with sep (t ∷ ss))

-- `s[len(p):] if s.startswith(p)`
abbrev pub strip_prefix : String → String → Option String
strip_prefix String.[] s = some s
strip_prefix (String.◌∷◌ c p) String.[] = none
strip_prefix (String.◌∷◌ c p) (String.◌∷◌ d s) =
    let rest = strip_prefix p s in if nat_eq (code c) (code d) then rest else none

pub strip_prefix-append : (p s : String) → strip_prefix p (p <> s) ≡ some s
strip_prefix-append String.[] s = rw nil-append
strip_prefix-append (String.◌∷◌ c p) s =
    rw (cons-append, (nat_eq_iff (code c) (code c)).1 refl) (strip_prefix-append p s)

pub join-append : (xs ys : List String) → join (xs ++ ys) ≡ join xs <> join ys
join-append [] ys = sym (nil-append (join ys))
join-append (x ∷ xs) ys = rw (join-append xs ys) (sym (append_assoc x (join xs) (join ys)))

-- one decimal digit
abbrev pub digit : ℕ → String
digit zero = "0"
digit (suc zero) = "1"
digit (suc (suc zero)) = "2"
digit (suc (suc (suc zero))) = "3"
digit (suc (suc (suc (suc zero)))) = "4"
digit (suc (suc (suc (suc (suc zero))))) = "5"
digit (suc (suc (suc (suc (suc (suc zero)))))) = "6"
digit (suc (suc (suc (suc (suc (suc (suc zero))))))) = "7"
digit (suc (suc (suc (suc (suc (suc (suc (suc zero)))))))) = "8"
digit _ = "9"

-- The digits of `n`, with one unit of fuel for each digit; `suc n` is always enough.
digits : ℕ → ℕ → String
digits zero n = ""
digits (suc fuel) n =
    let more = digits fuel (n / 10) <> digit (n % 10) in if ltb n 10 then digit n else more

-- `str(n)` for an `int` that is not negative
unfoldable pub str : ℕ → String
unfolding digits
str n = digits (suc n) n

-- what a text of digits stands for, read from the left after the value `acc`
value : ℕ → String → ℕ
value acc String.[] = acc
value acc (String.◌∷◌ c s) = value (acc * 10 + (code c - 48)) s

value-append : (s t : String) (acc : ℕ) → value acc (s <> t) ≡ value (value acc s) t
unfolding value
value-append String.[] t acc = rw nil-append
value-append (String.◌∷◌ c s) t acc = rw cons-append (value-append s t (acc * 10 + (code c - 48)))

value-digit : (d acc : ℕ) → d < 10 → value acc (digit d) ≡ acc * 10 + d
unfolding value
value-digit zero acc h = omega arith
value-digit (suc zero) acc h = omega arith
value-digit (suc (suc zero)) acc h = omega arith
value-digit (suc (suc (suc zero))) acc h = omega arith
value-digit (suc (suc (suc (suc zero)))) acc h = omega arith
value-digit (suc (suc (suc (suc (suc zero))))) acc h = omega arith
value-digit (suc (suc (suc (suc (suc (suc zero)))))) acc h = omega arith
value-digit (suc (suc (suc (suc (suc (suc (suc zero))))))) acc h = omega arith
value-digit (suc (suc (suc (suc (suc (suc (suc (suc zero)))))))) acc h = omega arith
value-digit (suc (suc (suc (suc (suc (suc (suc (suc (suc n))))))))) acc h = omega arith

value-digits : (fuel n : ℕ) → n < fuel → value 0 (digits fuel n) ≡ n
unfolding digits
value-digits zero n h = absurd (omega arith)
value-digits (suc fuel) n h = ground (
  arith,
  value-digit n 0,
  value-append (digits fuel (n / 10)) (digit (n % 10)) 0,
  value-digits fuel (n / 10),
  value-digit (n % 10) n,
  value-digit (n % 10) (n / 10),
)

pub str_injective : (m n : ℕ) → str m ≡ str n → m ≡ n
unfolding str
str_injective m n h =
    sym (value-digits (suc m) m (omega arith))
    ∙ ap (value 0) h
    ∙ value-digits (suc n) n (omega arith)

-- what holds of the digits, of the empty text and of two texts in a row holds of every number
module _ {ℓ} (P : String → Type ℓ) (nothing : P "") (one_digit : (d : ℕ) → P (digit d))
    (both : (s t : String) → P s → P t → P (s <> t)) where
  digits-rec : (fuel n : ℕ) → P (digits fuel n)
  unfolding digits
  digits-rec zero n = nothing
  digits-rec (suc fuel) n = elim (Bool-cases (ltb n 10)) [
    | inl e ↦ rw (e, digits) (one_digit n)
    | inr e ↦
        rw (e, digits)
          (both (digits fuel (n / 10)) (digit (n % 10)) (digits-rec fuel (n / 10))
            (one_digit (n % 10)))
  ]

  pub str-rec : (n : ℕ) → P (str n)
  unfolding str
  str-rec n = digits-rec (suc n) n
