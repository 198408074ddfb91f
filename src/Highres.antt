-- ===== src/Highres.antt =====
-- The samples of the last hour, kept in memory (packages/backend/src/constella/highres.py).
pub mod Ring
pub mod Positions
pub mod Contents
pub mod Points
pub mod Cache
pub mod Devices
mod Tests
