-- ===== src/Cache.antt =====
-- The project cache: qjazz-contrib/src/qjazz_cache.
pub mod Common
pub mod Paths
pub mod Routes
pub mod FileHandler
pub mod Manager
pub mod Collect
pub mod Refresh
pub mod Eviction
