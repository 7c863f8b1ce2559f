-- ===== src/Memory.antt =====
-- src/agent_continuity/memory_store.py: the projected task states and the order of a replay. A
-- `MemoryStoreError`, and its subclass `ProjectionError`, is a `store_error`; the `TaskStateError` of
-- src/agent_continuity/compaction.py is a `contract_error`.
pub mod States
pub mod Payloads
pub mod Ledger
pub mod Errors
pub mod Order
pub mod Samples
mod Tests
