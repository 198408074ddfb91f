-- ===== src/Rpc.antt =====
-- Requests of the manager to its agents (packages/backend/src/constella/agent_rpc.py).
pub mod Data
pub mod Broker
pub mod Events
pub mod Futures
pub mod Owned
pub mod Ends
pub mod Requests
pub mod Answers
pub mod Runs
mod Tests
