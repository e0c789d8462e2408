-- ===== src/Domain.antt =====
-- internal/domain: the states of a sandbox, and the validation of the resources that a request
-- names.
pub mod States
pub mod Lifetimes
pub mod Paths
pub mod Cleaning
pub mod Mounts
pub mod Resources
pub mod Records
