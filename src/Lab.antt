-- ===== src/Lab.antt =====
-- The lab account store (packages/lab/src/constella_lab/store.py): its tables and statements, its
-- methods, and what they keep; and the middleware in front of the lab (auth.py).
pub mod Data
pub mod Sql
pub mod Logins
pub mod Users
pub mod Bindings
pub mod Steps
pub mod Calls
pub mod Exclusive
pub mod Statements
pub mod Rules
pub mod History
pub mod Admins
pub mod Governance
pub mod Rollback
pub mod Atomic
pub mod Refusals
pub mod Gate
pub mod Verdicts
pub mod Access
pub mod Listings
pub mod Pages
mod Tests
mod GateTests
mod PageTests
