-- ===== src/Connection.antt =====
-- hmmp/connection.py, class HMMPConnection.
pub mod Stream
pub mod Transport
pub mod Framing
pub mod Encoded
pub mod StreamIds
pub mod Router
pub mod Responses
pub mod Dispatch
