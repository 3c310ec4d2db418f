-- ===== src/Owner.antt =====
-- scripts/opl_task_owner.py: the migration of a task from one execution owner to another.
pub mod Data
pub mod States
pub mod Checkpoint
pub mod Prepare
pub mod Steps
pub mod Calls
pub mod Effects
pub mod Invariant
pub mod Cases
pub mod Runs
pub mod Claims
pub mod Success
mod Tests
