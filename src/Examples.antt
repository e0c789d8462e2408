-- ===== src/Examples.antt =====
-- The theorems at concrete inputs, and tests of the definitions.
mod Codec
mod Ledger
mod Replay
mod Warm
mod Capability
mod Domain
mod Access
mod Relay
mod Admission
mod Store
mod Controller
mod Repair
