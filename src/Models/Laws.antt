-- ===== src/Models/Laws.antt =====
-- What the parsers of hmmp/models.py make of bodies laid out as the specification says.
pub mod Snapshots
pub mod Registration
