-- ===== src/CircuitBreaker.antt =====
-- hmmp/circuit_breaker.py: the breaker of one instance and the registry of breakers.
pub mod Breaker
pub mod Events
pub mod Invariant
pub mod Probing
pub mod Tripping
pub mod Registry
pub mod Instances
pub mod Replay
