-- ===== src/Governance.antt =====
-- hmmp/governance.py: the extension block of a frame, as tagged entries.
pub mod Block
pub mod Parse
pub mod Total
pub mod RoundTrip
pub mod Whole
pub mod Prefix
