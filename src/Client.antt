-- ===== src/Client.antt =====
-- hmmp/client.py, class HMMPClient.
pub mod Session
pub mod State
pub mod Bodies
pub mod Handshake
pub mod Unread
pub mod Waiting
pub mod Requests
pub mod Chunks
pub mod Configs
pub mod Services
pub mod Notices
pub mod Deliveries
pub mod Subscriptions
pub mod Lifecycle
pub mod Backoff
pub mod Decryption
