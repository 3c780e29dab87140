-- ===== src/Diff/Counts.antt =====
-- What `count_changes` counts.
use toolbridge_api.Prelude.{ℕ, ◌+◌, ◌≡◌, refl, List, [], ◌∷◌, arith, length, filter}
use toolbridge_api.Diff.Types.{Kind, DiffHunk, kind_eq}
use toolbridge_api.Diff.Annotate.{Changes, bump, count_loop, count_changes}

-- how many hunks have a kind
abbrev pub occurrences : Kind → List DiffHunk → ℕ
occurrences k hunks = length (filter (λ (h : DiffHunk). kind_eq h.kind k) hunks)

-- the counts `c` increased by those of the hunks
abbrev pub Adds : Changes → List DiffHunk → Changes → Type 0
Adds c hunks r =
    (r.added ≡ c.added + occurrences Kind.added hunks)
    × (r.removed ≡ c.removed + occurrences Kind.removed hunks)
    × (r.modified ≡ c.modified + occurrences Kind.modified hunks)
    × (r.unchanged ≡ c.unchanged + occurrences Kind.unchanged hunks)

Adds-bump :
    (k : Kind) (h : DiffHunk) (hunks : List DiffHunk) (c r : Changes)
    → h.kind ≡ k
    → Adds (bump k c) hunks r
    → Adds c (h ∷ hunks) r
Adds-bump Kind.added h hunks c r e a =
    rw e (omega (arith, a), omega (arith, a), omega (arith, a), omega (arith, a))
Adds-bump Kind.removed h hunks c r e a =
    rw e (omega (arith, a), omega (arith, a), omega (arith, a), omega (arith, a))
Adds-bump Kind.modified h hunks c r e a =
    rw e (omega (arith, a), omega (arith, a), omega (arith, a), omega (arith, a))
Adds-bump Kind.unchanged h hunks c r e a =
    rw e (omega (arith, a), omega (arith, a), omega (arith, a), omega (arith, a))

count_loop-Adds : (hunks : List DiffHunk) (c : Changes) → Adds c hunks (count_loop c hunks)
unfolding count_loop
count_loop-Adds [] c = (omega arith, omega arith, omega arith, omega arith)
count_loop-Adds (h ∷ hunks) c =
    Adds-bump h.kind h hunks c _ refl (count_loop-Adds hunks (bump h.kind c))

occurrences-total :
    (hunks : List DiffHunk)
    → occurrences Kind.added hunks
        + occurrences Kind.removed hunks
        + occurrences Kind.modified hunks
        + occurrences Kind.unchanged hunks
      ≡ length hunks
occurrences-total [] = refl
occurrences-total (h ∷ hunks) = ground (arith, occurrences-total hunks)

-- `count_changes` counts for every kind the hunks of that kind, and its four counts add up to the
-- number of hunks.
pub count_changes_lem :
    (hunks : List DiffHunk)
    → let c = count_changes hunks in
      (c.added ≡ occurrences Kind.added hunks)
      × (c.removed ≡ occurrences Kind.removed hunks)
      × (c.modified ≡ occurrences Kind.modified hunks)
      × (c.unchanged ≡ occurrences Kind.unchanged hunks)
      × (c.added + c.removed + c.modified + c.unchanged ≡ length hunks)
unfolding count_changes
count_changes_lem hunks =
    let a =
      count_loop-Adds hunks (record { added = 0; removed = 0; modified = 0; unchanged = 0 }) in
    (
      omega (arith, a),
      omega (arith, a),
      omega (arith, a),
      omega (arith, a),
      omega (arith, a, occurrences-total hunks),
    )
