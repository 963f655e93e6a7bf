-- ===== src/Balancer.antt =====
-- hmmp/load_balancer.py: the adaptive weights, the weighted choice, and the traffic colour router.
pub mod Weights
pub mod Selection
pub mod Monotone
pub mod Draws
pub mod Permits
pub mod Router
pub mod Colors
