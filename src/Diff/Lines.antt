-- ===== src/Diff/Lines.antt =====
-- `str.splitlines(keepends=True)` and `str.split("\n")`, on which the line diff rests.
pub mod Split
use text.Mathlib.TextLemmas.{nil-append, cons-append, append-nil}
use toolbridge_api.Prelude.{
  ℕ, String, Char, code, ◌≡◌, refl, Bool, false, not, ◌&&◌, ◌||◌, List, [], ◌∷◌, arith, leb, nat_eq,
  if◌then◌else◌,
}
use toolbridge_api.Prelude.Text.{join}

-- the code points at which Python ends a line
is_break : ℕ → Bool
is_break c =
    (leb 10 c && leb c 13)
    || (leb 28 c && leb c 30)
    || nat_eq c 133
    || nat_eq c 8232
    || nat_eq c 8233

begins_lf : String → Bool
begins_lf String.[] = false
begins_lf (String.◌∷◌ c s) = nat_eq (code c) 10

-- Whether a line ends behind `c` with `s` to follow: "\r\n" is one line break.
ends_line : Char → String → Bool
unfolding is_break begins_lf
ends_line c s = is_break (code c) && not (nat_eq (code c) 13 && begins_lf s)

-- `c` in front of the first line
cons_first : Char → List String → List String
cons_first c [] = String.◌∷◌ c "" ∷ []
cons_first c (l ∷ ls) = String.◌∷◌ c l ∷ ls

-- `s.splitlines(keepends=True)`
unfoldable pub splitlines : String → List String
unfolding ends_line cons_first
splitlines String.[] = []
splitlines (String.◌∷◌ c s) =
    let rest = splitlines s in if ends_line c s then String.◌∷◌ c "" ∷ rest else cons_first c rest

-- `s.split("\n")`
unfoldable pub split_lf : String → List String
unfolding cons_first
split_lf String.[] = "" ∷ []
split_lf (String.◌∷◌ c s) =
    let rest = split_lf s in if nat_eq (code c) 10 then "" ∷ rest else cons_first c rest

join-cons_first : (c : Char) (ls : List String) → join (cons_first c ls) ≡ String.◌∷◌ c (join ls)
unfolding cons_first
join-cons_first c [] = append-nil (String.◌∷◌ c "")
join-cons_first c (l ∷ ls) = cons-append c l (join ls)

-- The lines of a text, their ends kept, join to the text.
pub join-splitlines : (s : String) → join (splitlines s) ≡ s
unfolding splitlines
join-splitlines String.[] = refl
join-splitlines (String.◌∷◌ c s) = ground (
  arith,
  join-splitlines s,
  join-cons_first c (splitlines s),
  cons-append c "" (join (splitlines s)),
  nil-append (join (splitlines s)),
)
