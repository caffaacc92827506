-- ===== src/Metadata.antt =====
-- The metadata shard's replicated state machine (internal/metadata).
pub mod Types
pub mod Text
pub mod Result
pub mod Rebalance
pub mod Topics
pub mod Groups
pub mod Machine
pub mod WellFormed
pub mod Errors
pub mod Lookup
pub mod Offsets
