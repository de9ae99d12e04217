-- ===== src/Service.antt =====
-- backend/social/internal/service: the services that change the tables and notify the feed.
pub mod Friends
pub mod Users
pub mod Posts
pub mod Calls
pub mod Tables
pub mod Atomic
pub mod Lost
pub mod Pending
mod Tests
