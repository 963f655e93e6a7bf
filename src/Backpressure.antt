-- ===== src/Backpressure.antt =====
-- hmmp/backpressure.py.
pub mod Controller
pub mod Delays
pub mod Recovery
