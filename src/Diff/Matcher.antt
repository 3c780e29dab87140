-- ===== src/Diff/Matcher.antt =====
-- `difflib.SequenceMatcher`: what its documentation promises of `get_opcodes`.
use toolbridge_api.Prelude.{ℕ, ◌≤◌, String, ◌≡◌, List, [], ◌∷◌, length, slice}

-- the first member of an opcode
pub data Tag : Type 0 where
  equal replace delete insert : Tag

-- `(tag, i1, i2, j1, j2)`
pub record Opcode : Type 0 where
  pub tag : Tag
  pub i1 : ℕ
  pub i2 : ℕ
  pub j1 : ℕ
  pub j2 : ℕ

module _ (a b : List String) where
  -- What the tag says of the two ranges.
  abbrev pub TagHolds : Tag → ℕ → ℕ → ℕ → ℕ → Type 0
  TagHolds Tag.equal i1 i2 j1 j2 = slice i1 i2 a ≡ slice j1 j2 b
  TagHolds Tag.replace i1 i2 j1 j2 = Unit
  TagHolds Tag.delete i1 i2 j1 j2 = j2 ≡ j1
  TagHolds Tag.insert i1 i2 j1 j2 = i2 ≡ i1

  -- The ranges begin at `i` and `j`, follow one another, and end where the sequences end.
  abbrev pub Covers : ℕ → ℕ → List Opcode → Type 0
  Covers i j [] = (i ≡ length a) × (j ≡ length b)
  Covers i j (o ∷ os) =
      (o.i1 ≡ i)
      × (o.j1 ≡ j)
      × (i ≤ o.i2)
      × (j ≤ o.j2)
      × TagHolds o.tag o.i1 o.i2 o.j1 o.j2
      × Covers o.i2 o.j2 os

-- `difflib.SequenceMatcher(a=a, b=b).get_opcodes()`
abbrev pub Matcher : Type 0
Matcher = List String → List String → List Opcode

pub record IsMatcher (get_opcodes : Matcher) : Type 0 where
  pub covers : (a b : List String) → Covers a b 0 0 (get_opcodes a b)
