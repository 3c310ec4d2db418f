-- ===== src/Fleet/Dispatch.antt =====
-- scripts/opl_fleet_parts/fleet_dispatch.py: a request for a node is read, a node is chosen for it
-- and leased, a session is run under the lease, and the lease is released.
pub mod Words
pub mod Requirements
pub mod Request
pub mod Candidates
pub mod Acquire
pub mod Session
pub mod Execute
pub mod Bounded
pub mod Acquired
pub mod Executed
mod Tests
