-- ===== src/Gpm.antt =====
-- The samples of NVIDIA's performance counters, kept in memory (packages/backend/src/constella/
-- performance_highres.py).
pub mod Ring
pub mod Bits
pub mod Slots
pub mod Cells
pub mod Window
pub mod Bisect
pub mod Slices
pub mod Contents
pub mod Runs
pub mod Scan
pub mod Series
pub mod Downsample
pub mod Sizes
pub mod Extremes
pub mod Kept
pub mod Chosen
pub mod Keyed
pub mod Cache
pub mod Held
pub mod Answers
mod Tests
