-- ===== src/Tests.antt =====
-- Runs of the modelled code at concrete inputs, and the theorems applied to them.
mod Fixtures
mod DiffRuns
mod SessionRuns
mod ToolRuns
mod RequestRuns
mod NoteRuns
mod EntityRuns
mod HeaderRuns
mod DecisionRuns
mod InterleavedRuns
mod OperationRuns
