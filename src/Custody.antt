-- ===== src/Custody.antt =====
-- scripts/worktree_lifecycle.py and the ledger shape of scripts/worktree_fleet_audit.py: the custody
-- of Git worktrees.
pub mod Data
pub mod Ledger
pub mod Changes
pub mod Receipts
pub mod Written
pub mod Transfers
pub mod Overlaps
pub mod Close
pub mod Removals
pub mod Closed
pub mod Superseded
pub mod Only
pub mod Retired
pub mod Absorption
pub mod TakenUp
pub mod Stale
pub mod Cleared
mod Tests
