-- ===== src/Codec.antt =====
-- hmmp/codec.py: binary writing and reading, hashes, and the metrics word.
pub mod Endian
pub mod Utf8
pub mod Writer
pub mod Reader
pub mod RoundTrip
pub mod Strings
pub mod Metrics
pub mod MetricsLaws
pub mod Hash
pub mod HashLaws
