-- ===== src/Rollup.antt =====
-- The averages that are kept of the counters (packages/backend/src/constella/performance_rollup.py).
pub mod Bucket
pub mod Held
pub mod Totals
mod Tests
