-- ===== src/Compaction.antt =====
-- Task states and the admission of a compacted one (src/agent_continuity/compaction.py).
pub mod Types
pub mod Values
pub mod Times
pub mod Items
pub mod State
pub mod Again
pub mod References
pub mod Invariants
pub mod Proposal
pub mod Chain
pub mod Preserved
pub mod Errors
pub mod Reports
pub mod Samples
mod Tests
