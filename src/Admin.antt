-- ===== src/Admin.antt =====
-- hmmp/admin.py: the management operations.
pub mod Responses
pub mod Tenants
pub mod Credentials
pub mod Listings
pub mod OpCodes
pub mod RoundTrip
pub mod Listed
