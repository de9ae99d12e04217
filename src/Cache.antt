-- ===== src/Cache.antt =====
-- backend/social/internal/service/cache: the Redis cache, its converters and the two cachers.
pub mod Redis
pub mod Load
pub mod Cacher
pub mod Fresh
pub mod Converters
pub mod Renewed
pub mod Workers
