-- ===== src/Warm.antt =====
-- internal/backend/warm/pool.go: a pool of clean sandboxes, each of which is claimed at most once.
pub mod Slots
pub mod World
pub mod Statements
pub mod Methods
pub mod Serving
pub mod Within
pub mod Upkeep
pub mod Served
pub mod Picking
pub mod Invariants
pub mod Calls
pub mod Backing
pub mod Capacity
pub mod Differing
pub mod Single
pub mod Destruction
