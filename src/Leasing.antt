-- ===== src/Leasing.antt =====
-- Package leasing: pooled resources handed to tasks. Definitions first, then the proofs about them.
pub mod Types
pub mod Kind
pub mod Strategy
pub mod State
pub mod Groups
pub mod Inventory
pub mod Acquire
pub mod Locks
pub mod Load
pub mod Invariant
pub mod Calls
mod Tests
pub mod Outcomes
pub mod Wakeups
pub mod Queries
