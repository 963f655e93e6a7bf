-- ===== src/Tests.antt =====
-- Concrete inputs at which the theorems' hypotheses hold, and runs of the definitions.
mod Codec
mod Frame
mod CircuitBreaker
mod Governance
mod Registry
mod Backpressure
mod Platform
mod Models
mod Caches
mod Connection
mod Router
mod Crypto
mod Balancer
mod Admin
mod Collector
mod Client
mod Interceptor
mod Subscriptions
