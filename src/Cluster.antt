-- ===== src/Cluster.antt =====
-- The backend's cluster state (packages/backend/src/constella/cluster.py).
pub mod Data
pub mod History
pub mod State
pub mod Views
pub mod Events
pub mod Held
pub mod Fencing
pub mod Marks
pub mod Replay
pub mod Series
pub mod Liveness
pub mod Version
mod Tests
