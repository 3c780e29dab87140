-- ===== src/Tests/DiffRuns.antt =====
-- mcp/toolbridge_mcp/utils/diff.py at concrete texts.
use toolbridge_api.Prelude.{◌+◌, false, ◌≡◌, refl, none, List, [], ◌∷◌, map, length, All}
use toolbridge_api.Errors.{ok}
use toolbridge_api.Dict.{Dict, lookup}
use toolbridge_api.Diff.Types.{Kind, Status, DiffHunk, HunkDecision}
use toolbridge_api.Diff.Lines.{splitlines}
use toolbridge_api.Diff.Compute.{compute_line_diff, counted_hunk}
use toolbridge_api.Diff.Annotate.{annotate_hunks_with_ids, count_changes}
use toolbridge_api.Diff.Apply.{apply_hunk_decisions}
use toolbridge_api.Diff.Tiles.{originals, proposals}
use toolbridge_api.Diff.Cover.{compute_line_diff-covers}
use toolbridge_api.Diff.Ranges.{IsLocated, annotate-IsLocated, ids_from, Distinct, annotate-ids}
use toolbridge_api.Diff.Decisions.{IsProper, decided_text, apply_hunk_decisions_lem}
use toolbridge_api.Diff.Outcomes.{full_hunks, AllAnswered, accept-all, reject-all}
use toolbridge_api.Diff.Counts.{occurrences, count_changes_lem}
use toolbridge_api.Tests.Fixtures.{prefix_matcher, prefix_matcher-IsMatcher, old_text, new_text}

-- the diff of the two texts
abbrev sample_hunks : List DiffHunk
sample_hunks =
    counted_hunk Kind.unchanged "a\n" "a\n" 1 1 ∷ counted_hunk Kind.modified "b" "c" 1 1 ∷ []

sample_diff : compute_line_diff prefix_matcher old_text new_text 5 false ≡ sample_hunks
unfolding compute_line_diff
sample_diff = refl

splits : splitlines "a\r\nb\n\nc" ≡ "a\r\n" ∷ "b\n" ∷ "\n" ∷ "c" ∷ []
unfolding splitlines
splits = refl

abbrev decision_as : Status → Dict HunkDecision
decision_as st = ("h2", record { status = st; revised_text = none }) ∷ []

covers_example :
    (originals (compute_line_diff prefix_matcher old_text new_text 5 false) ≡ old_text)
    × (proposals (compute_line_diff prefix_matcher old_text new_text 5 false) ≡ new_text)
covers_example =
    compute_line_diff-covers prefix_matcher prefix_matcher-IsMatcher 5 old_text new_text

ranges_example :
    All
      (IsLocated (splitlines old_text) (splitlines new_text))
      (annotate_hunks_with_ids (compute_line_diff prefix_matcher old_text new_text 5 false))
ranges_example = annotate-IsLocated prefix_matcher old_text new_text 5 prefix_matcher-IsMatcher

ids_example :
    (map (λ (h : DiffHunk). h.id) (annotate_hunks_with_ids sample_hunks) ≡ ids_from 1 2)
    × Distinct (map (λ (h : DiffHunk). h.id) (annotate_hunks_with_ids sample_hunks))
ids_example = annotate-ids sample_hunks

sample_hunks-IsProper : All IsProper (full_hunks prefix_matcher old_text new_text 5)
unfolding compute_line_diff annotate_hunks_with_ids
sample_hunks-IsProper = (refl, (tt, tt))

decisions_example :
    apply_hunk_decisions
      (full_hunks prefix_matcher old_text new_text 5)
      (decision_as Status.pending)
    ≡ decided_text (decision_as Status.pending) (full_hunks prefix_matcher old_text new_text 5)
decisions_example =
    apply_hunk_decisions_lem (decision_as Status.pending)
      (full_hunks prefix_matcher old_text new_text 5) sample_hunks-IsProper

all_answered :
    (st : Status) → AllAnswered (decision_as st) st (full_hunks prefix_matcher old_text new_text 5)
unfolding compute_line_diff annotate_hunks_with_ids lookup
all_answered st = (tt, ((none, refl), tt))

accept-all_example :
    apply_hunk_decisions
      (full_hunks prefix_matcher old_text new_text 5)
      (decision_as Status.accepted)
    ≡ ok new_text
accept-all_example =
    accept-all prefix_matcher old_text new_text 5 prefix_matcher-IsMatcher
      (decision_as Status.accepted) (all_answered Status.accepted)

reject-all_example :
    apply_hunk_decisions
      (full_hunks prefix_matcher old_text new_text 5)
      (decision_as Status.rejected)
    ≡ ok old_text
reject-all_example =
    reject-all prefix_matcher old_text new_text 5 prefix_matcher-IsMatcher
      (decision_as Status.rejected) (all_answered Status.rejected)

count_changes_example :
    let c = count_changes sample_hunks in
    (c.added ≡ occurrences Kind.added sample_hunks)
    × (c.removed ≡ occurrences Kind.removed sample_hunks)
    × (c.modified ≡ occurrences Kind.modified sample_hunks)
    × (c.unchanged ≡ occurrences Kind.unchanged sample_hunks)
    × (c.added + c.removed + c.modified + c.unchanged ≡ length sample_hunks)
count_changes_example = count_changes_lem sample_hunks
