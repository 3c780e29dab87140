-- ===== src/Tests/SessionRuns.antt =====
-- mcp/toolbridge_mcp/note_edit_sessions.py at a concrete session.
use toolbridge_api.Prelude.{◌+◌, ◌≡◌, ◌≢◌, refl, false, some, [], map, String, ◌==◌, any, length}
use toolbridge_api.Dict.{lookup, NodupKeys}
use toolbridge_api.Diff.Types.{Status}
use toolbridge_api.Diff.Compute.{compute_line_diff}
use toolbridge_api.Sessions.Types.{NoteEditSession}
use toolbridge_api.Sessions.Store.{
  cleanup_expired_sessions, get_hunk_counts, get_pending_hunks, is_pending_hunk, set_hunk_status,
}
use toolbridge_api.Sessions.Merged.{IsPaired}
use toolbridge_api.Sessions.DecidedHunk.{decided_hunk}
use toolbridge_api.Sessions.Resolve.{IsUpdateOf, set_hunk_status-content}
use toolbridge_api.Sessions.UpdateEach.{ids_of}
use toolbridge_api.Sessions.EachHunk.{decide_each, accept_each-content, reject_each-content}
use toolbridge_api.Sessions.Expiry.{survives, cleanup_expired_sessions_lem}
use toolbridge_api.Sessions.Counts.{total, changed_hunks, get_hunk_counts_lem}
use toolbridge_api.Tests.Fixtures.{
  prefix_matcher, prefix_matcher-IsMatcher, old_text, new_text, open_session, one_session,
}

pub found : lookup "e1" one_session ≡ some open_session
unfolding lookup
found = refl

pub open_session-IsPaired : IsPaired prefix_matcher open_session
unfolding compute_line_diff
open_session-IsPaired = (refl, refl, (refl, refl, tt))

pub has_hunks : open_session.hunks ≢ []
has_hunks = cc

set_hunk_status-content_example :
    let after =
      (set_hunk_status prefix_matcher "e1" "h2" Status.revised (some "d") one_session).1 in
    ((s' : NoteEditSession) × (lookup "e1" after ≡ some s')
      × IsUpdateOf prefix_matcher open_session
          (map (decided_hunk "h2" Status.revised (some "d")) open_session.hunks)
          s'
      × IsPaired prefix_matcher s')
    × ((j : String) → ("e1" == j) ≡ false → lookup j after ≡ lookup j one_session)
set_hunk_status-content_example =
    set_hunk_status-content prefix_matcher prefix_matcher-IsMatcher "e1" "h2" Status.revised
      (some "d") one_session open_session found open_session-IsPaired

accept_each-content_example :
    (s' : NoteEditSession) × (lookup "e1"
        (decide_each prefix_matcher "e1" Status.accepted (ids_of open_session.hunks) one_session)
      ≡ some s')
    × (s'.current_content ≡ some new_text)
    × (any is_pending_hunk s'.hunks ≡ false)
    × (s'.note_uid ≡ "n1")
    × (s'.base_version ≡ 4)
accept_each-content_example =
    accept_each-content prefix_matcher prefix_matcher-IsMatcher "e1" one_session open_session found
      open_session-IsPaired has_hunks

reject_each-content_example :
    (s' : NoteEditSession) × (lookup "e1"
        (decide_each prefix_matcher "e1" Status.rejected (ids_of open_session.hunks) one_session)
      ≡ some s')
    × (s'.current_content ≡ some old_text)
    × (any is_pending_hunk s'.hunks ≡ false)
    × (s'.note_uid ≡ "n1")
    × (s'.base_version ≡ 4)
reject_each-content_example =
    reject_each-content prefix_matcher prefix_matcher-IsMatcher "e1" one_session open_session found
      open_session-IsPaired has_hunks

one_session-NodupKeys : NodupKeys one_session
unfolding lookup
one_session-NodupKeys = (refl, tt)

cleanup_expired_sessions_example :
    let r = cleanup_expired_sessions 50 30 one_session in
    (lookup "e1" r.1 ≡ survives 50 30 (lookup "e1" one_session)) × (length r.1 + r.0 ≡ 1)
cleanup_expired_sessions_example =
    cleanup_expired_sessions_lem 50 30 one_session "e1" one_session-NodupKeys

get_hunk_counts_example :
    ((get_hunk_counts "e1" one_session).pending ≡ length (get_pending_hunks "e1" one_session))
    × (total (get_hunk_counts "e1" one_session) ≡ length (changed_hunks "e1" one_session))
get_hunk_counts_example = get_hunk_counts_lem "e1" one_session
