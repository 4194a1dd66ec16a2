-- ===== src/Metrics.antt =====
-- connectivity-exporter/metrics: the counters of the exporter.
pub mod Inc
pub mod CounterVec
pub mod Apply
pub mod Loop
pub mod Execution
