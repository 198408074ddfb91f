-- ===== src/Wire.antt =====
-- The devices of a sample as JSON: what an agent sends and what the manager makes of it
-- (packages/backend/src/constella/schema.py, cluster.py).
pub mod Json
pub mod Data
pub mod Decode
pub mod Performances
pub mod Devices
pub mod Encode
pub mod Sound
pub mod Parts
pub mod Accepted
pub mod Received
pub mod RoundTrip
pub mod Filter
pub mod Desktop
pub mod Tracked
pub mod Issues
pub mod Ranges
pub mod Typed
pub mod Ids
pub mod Delta
pub mod Sends
pub mod Recorded
pub mod Sources
pub mod Kept
pub mod Exchange
mod Tests
