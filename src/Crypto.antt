-- ===== src/Crypto.antt =====
-- hmmp/crypto.py: signatures, key derivation and the encryption of configuration bodies.
pub mod Primitives
pub mod Signatures
pub mod Payload
pub mod RoundTrip
pub mod Acceptance
