-- ===== src/Fleet/Runner.antt =====
-- The runner transaction of scripts/opl_fleet_parts/fleet_runner.py: a role's runner is started under
-- a lease that its transaction file records, renewed, and stopped before the lease is released.
pub mod Control
pub mod Waits
pub mod Record
pub mod Commands
pub mod Held
pub mod Stops
pub mod Renewals
pub mod Starts
pub mod Runs
pub mod Expiry
mod Tests
