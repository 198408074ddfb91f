-- ===== src/Usage.antt =====
-- Who used what, and how much of it at a time.
pub mod Limiter
pub mod Granted
pub mod Window
pub mod Spans
pub mod Union
pub mod Segments
pub mod Events
pub mod Emit
pub mod Sweep
pub mod Cards
pub mod Owners
pub mod EdgeSets
pub mod Edges
pub mod Shares
pub mod Charges
mod Tests
