-- ===== src/Feed/Coherence.antt =====
-- The caches against the database: what the updater leaves fresh.
pub mod Loads
pub mod Loop
pub mod Updates
