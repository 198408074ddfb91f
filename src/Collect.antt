-- ===== src/Collect.antt =====
-- The collector of an agent, which asks a device sampler or a fallback
-- (packages/backend/src/constella/collector.py).
pub mod Collector
pub mod Handles
pub mod Runs
pub mod Retry
mod Tests
