-- ===== src/Controller.antt =====
-- internal/service: the controller, which moves sandboxes along their life. Each method that holds
-- the mutex is one step; a lifecycle action is two, since it lets go of the mutex while it calls
-- the backend and the node.
pub mod Types
pub mod Transitions
pub mod Actions
pub mod Guests
pub mod Worlds
pub mod Writes
pub mod Keeping
pub mod Starting
pub mod Exclusion
pub mod Endings
pub mod Serving
pub mod Cases
pub mod Reached
pub mod Moves
pub mod Stored
pub mod Observed
pub mod Repair
pub mod Committing
pub mod Reading
pub mod Stepping
pub mod Read
pub mod Repairing
pub mod Finishing
pub mod System
pub mod Foreign
pub mod Holding
pub mod Together
pub mod Expiring
