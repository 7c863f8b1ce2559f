-- ===== src/WorkingSet.antt =====
-- The bounded working set of the model (src/agent_continuity/working_set.py). A `WorkingSetError` is a
-- `contract_error`.
pub mod Types
pub mod Ledger
pub mod Query
pub mod Blocks
pub mod Packing
pub mod Scopes
pub mod Task
