-- ===== src/Telemetry.antt =====
-- Validation of numeric readings (packages/backend/src/constella/telemetry.py).
pub mod Rules
pub mod Filter
mod Tests
