-- ===== src/Fleet/Admission.antt =====
-- The admission of a lease in scripts/opl_fleet_parts/fleet_runner.py: the runner roles, the gate on
-- a node's readback before a lease is built, and the verification of a lease before it is used.
pub mod Checks
pub mod Roles
pub mod Doctor
pub mod Verify
pub mod Sound
pub mod Fresh
mod Tests
