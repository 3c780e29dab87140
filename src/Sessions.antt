-- ===== src/Sessions.antt =====
-- mcp/toolbridge_mcp/note_edit_sessions.py, the pending edits of notes.
pub mod Types
pub mod Store
pub mod DecisionMap
pub mod DecidedHunk
pub mod Content
pub mod Paired
pub mod Merged
pub mod Resolve
pub mod UpdateEach
pub mod EachHunk
pub mod Expiry
pub mod Counts
pub mod Consistent
pub mod Objects
pub mod PendingHunks
pub mod Settled
pub mod Rounds
