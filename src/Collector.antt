-- ===== src/Collector.antt =====
-- hmmp/metrics.py: what a client reports about itself in a heartbeat.
pub mod Metrics
pub mod Average
pub mod Report
