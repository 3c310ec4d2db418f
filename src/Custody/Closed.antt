-- ===== src/Custody/Closed.antt =====
-- What a close leaves, when it ends well and when it fails.
use opl_flow.Base.{
  String, Bool, true, false, ◌≡◌, ◌⊎◌, ◌==◌, none, some, is_some, is_ok, ok, err, if◌then◌else◌,
}
use opl_flow.Base.Results.{Result}
use opl_flow.Custody.Data.{LifecycleError, Entry, Ledger, Host, find_entry}
use opl_flow.Custody.Ledger.{read_ledger, write_ledger}
use opl_flow.Custody.Transfers.{custody_at}
use opl_flow.Custody.Close.{
  in_lane, discarded, Checkout, LaneAudit, CloseAnswers, remote_head, without_lane,
}
use opl_flow.Custody.Removals.{IsRemovable}

-- The audit is the one that the close asked for: the first, or, if that said that the index can be
-- detached, the one after a detach that went well.
abbrev pub IsAnswer : LaneAudit → CloseAnswers → Type 0
IsAnswer a x =
    (x.audit ≡ ok a)
    ⊎ ((first : LaneAudit) × (x.audit ≡ ok first)
        × (first.action ≡ "index_detach_ready")
        × (first.blocking ≡ false)
        × (is_ok x.detach.after_move ≡ true)
        × (x.detached_audit ≡ ok a))

module _ (host : Host) (machine now : String) where
  -- The state after a close that ends well. The lane was removable; its worktree, its local branch
  -- and its branch on the remote are gone, its index is where it was or discarded, and its receipt
  -- is taken out of the ledger.
  pub record Closed (lane : String) (x : CloseAnswers) (w w' : Checkout) : Type 0 where
    pub payload : Ledger
    pub reads : read_ledger host machine now w.ledger ≡ ok payload
    pub entry : Entry
    pub found : find_entry lane payload.entries ≡ some entry
    pub active : entry.status ≡ "ACTIVE"
    pub audit : LaneAudit
    pub answered : IsAnswer audit x
    pub removable : IsRemovable entry audit x
    pub worktree : w'.worktree ≡ false
    pub branch : w'.branch ≡ false
    pub remote :
        w'.remote_branch
        ≡ (if is_some (remote_head audit.remote_branch_head) then false else w.remote_branch)
    pub index : (w'.index ≡ w.index) ⊎ (w'.index ≡ discarded)
    pub written : Ledger
    pub saved : w'.ledger ≡ some written
    pub custody :
        (k : String)
        → custody_at k written.entries ≡ (if lane == k then none else custody_at k payload.entries)

  -- The state after a close that fails. The ledger is as it was; the local branch is there while the
  -- worktree is; and while the worktree is there, its index is in it, unless the index could not be
  -- put back.
  pub record CloseFailed (x : CloseAnswers) (w w' : Checkout) : Type 0 where
    pub ledger : w'.ledger ≡ w.ledger
    pub branch : (w'.worktree ≡ false) ⊎ (w'.branch ≡ w.branch)
    pub index :
        (w'.worktree ≡ false)
        ⊎ ((w'.index ≡ in_lane) ⊎ ((is_ok x.restore ≡ false) ⊎ (x.detach.target_reappeared ≡ true)))

  -- what is written at the end of a close that ends well
  record Finished (detached : Bool) (lane : String) (payload : Ledger) (w w' : Checkout)
      : Type 0 where
    written : Ledger
    wrote :
        write_ledger host now (record payload { entries = without_lane lane payload.entries })
        ≡ ok written
    state : w' ≡ record w {
      ledger = some written;
      branch = false;
      index = if detached then discarded else w.index;
    }

  -- the state after the audit, with the index detached if the flag says so
  record Audited (x : CloseAnswers) (w w' : Checkout) (detached : Bool)
      (r : Result LifecycleError LaneAudit) : Type 0 where
    same : w' ≡ record w { index = w'.index }
    index :
        (detached ≡ true)
        ⊎ ((w'.index ≡ w.index) ⊎ ((x.detach.target_reappeared ≡ true) × (is_ok r ≡ false)))

  -- the state after a close, for each result of it
  abbrev pub CloseEnds :
      String → CloseAnswers → Checkout → Checkout → Result LifecycleError (Unit {0}) → Type 0
  CloseEnds lane x w w' (ok t) = Closed lane x w w'
  CloseEnds lane x w w' (err e) = CloseFailed x w w'
