-- ===== src/Routing.antt =====
-- Deterministic, evidence-bound routing (src/agent_continuity/routing.py).
pub mod Types
pub mod Locality
pub mod Eligibility
pub mod Canonical
pub mod Selection
pub mod Validation
pub mod WellFormed
pub mod Totality
pub mod Permission
pub mod Decisions
pub mod Fields
pub mod Adjudication
pub mod Requests
mod Tests
pub mod Parsing
