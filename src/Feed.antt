-- ===== src/Feed.antt =====
-- backend/social/internal/service/feed: pages of the feed, notifications and the updater.
pub mod Notifier
pub mod Updater
pub mod Page
pub mod Query
pub mod Heard
pub mod Smooth
pub mod Accepted
pub mod Coherence
pub mod Subscriber
mod Tests
