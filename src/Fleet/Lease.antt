-- ===== src/Fleet/Lease.antt =====
-- scripts/opl_fleet_parts/fleet_lease.py: the lease store of the Fleet controller.
pub mod Data
pub mod Validate
pub mod Store
pub mod Requests
pub mod Records
pub mod Sound
pub mod Reaping
pub mod Transactions
pub mod Fencing
pub mod Files
pub mod Runs
pub mod Ownership
mod Tests
