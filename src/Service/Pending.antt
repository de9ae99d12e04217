-- ===== src/Service/Pending.antt =====
-- The caches while notifications wait for the updater.
pub mod Invariant
pub mod Handling
pub mod Told
pub mod Changes
pub mod Waiting
pub mod Histories
pub mod Settling
mod Tests
