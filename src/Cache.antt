-- ===== src/Cache.antt =====
-- hmmp/cache.py.
pub mod Keys
pub mod Snapshots
pub mod Freshness
pub mod Configs
pub mod Files
pub mod Canary
