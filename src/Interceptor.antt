-- ===== src/Interceptor.antt =====
-- hmmp/interceptor.py: what runs around the frames that are sent and received.
pub mod Frames
pub mod Signals
