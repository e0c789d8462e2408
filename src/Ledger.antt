-- ===== src/Ledger.antt =====
-- internal/nodeledger/ledger.go: the node's durable ledger of routes and their generations.
pub mod Types
pub mod Checks
pub mod Disk
pub mod Operations
pub mod Leases
pub mod Validity
pub mod Changes
pub mod Storing
pub mod Guards
pub mod Steps
pub mod Kept
pub mod Fencing
pub mod Activity
pub mod Invariant
pub mod Recovery
pub mod Reopen
pub mod Release
