-- ===== src/Fleet.antt =====
-- scripts/opl_fleet_parts: the Fleet controller.
pub mod Common
pub mod Lease
pub mod Admission
pub mod Runner
pub mod Features
pub mod Selection
pub mod Dispatch
