-- ===== src/Diff.antt =====
-- mcp/toolbridge_mcp/utils/diff.py, the line diff between a note's text and a proposed one.
pub mod Types
pub mod Lines
pub mod Matcher
pub mod Compute
pub mod Annotate
pub mod Apply
pub mod Tiles
pub mod Merge
pub mod Cover
pub mod Ranges
pub mod Decisions
pub mod Outcomes
pub mod Counts
