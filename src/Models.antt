-- ===== src/Models.antt =====
-- hmmp/models.py.
pub mod Platform
pub mod Instance
pub mod Snapshot
pub mod Config
pub mod Notices
pub mod Requests
pub mod Laws
