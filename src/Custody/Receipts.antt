-- ===== src/Custody/Receipts.antt =====
-- The operations on receipts of worktree_lifecycle.py: each reads the ledger under its lock, changes
-- it and writes it back. A clock reading is an argument, and so is what Git has answered.
use opl_flow.Base.{
  String, Bool, true, not, ◌||◌, ◌==◌, Option, none, some, if◌then◌else◌, ok, err, raise_if, ◌>>=◌,
  ◌>>◌,
}
use opl_flow.Base.Results.{Result}
use opl_flow.Base.Text.{is_blank, is_empty_text}
use opl_flow.Custody.Data.{
  LifecycleError, identity_required, unchanged_identity, unchanged_objective, no_active_receipt,
  dirty_worktree, no_branch, other_remote, readback_mismatch, RemoteRecovery, Entry, Ledger, Host,
  same_identity, is_blank_identity, is_active_entry, find_entry, put_entry, normalize_write_set,
}
use opl_flow.Custody.Ledger.{read_ledger, write_ledger}
use opl_flow.Custody.Changes.{
  Amendment, Registration, TransferRequest, amended_entry, expected_entry, integration_overlaps,
  new_identity, rebound_all, registered_entries, registered_entry, retold, retold_all,
  transferred_entry,
}

-- What Git has answered to `checkpoint`, before the push and after it.
pub record PushAnswers : Type 0 where
  pub dirty : Bool
  pub branch : String
  pub target_remote : String
  pub commit : String
  pub tree : String
  pub wire_commit : Option String

-- `not wire or wire.split()[0] != commit`
abbrev pub is_other_commit : Option String → String → Bool
is_other_commit none commit = true
is_other_commit (some wire) commit = not (wire == commit)

-- `if next_action:`
abbrev pub action_or : Option String → String → String
action_or none old = old
action_or (some s) old = if is_empty_text s then old else s

unfoldable pub found_active : Option Entry → Result LifecycleError Entry
found_active none = err no_active_receipt
found_active (some e) = do raise_if (not (is_active_entry e)) no_active_receipt; ok e

module _ (host : Host) (machine now : String) where
  unfoldable pub register : Registration → Option Ledger → Result LifecycleError (Entry × Ledger)
  register q file = do
    desired ← normalize_write_set q.write_set
    raise_if (is_blank_identity q.identity || is_blank q.next_action) identity_required
    payload ← read_ledger host machine now file
    let existing = find_entry q.lane payload.entries
    entry ←
        registered_entry q existing desired
          (integration_overlaps host payload.entries q.lane desired)
    written ←
        write_ledger host now
          (record payload { entries = registered_entries existing entry payload.entries })
    ok (entry, written)

  unfoldable pub transfer_owner :
      TransferRequest → Option Ledger → Result LifecycleError (Entry × Ledger)
  transfer_owner q file = do
    raise_if
        (is_blank_identity q.expected
          || is_blank_identity (new_identity q)
          || is_blank q.next_action
          || is_blank q.reason)
        identity_required
    raise_if (same_identity q.expected (new_identity q)) unchanged_identity
    payload ← read_ledger host machine now file
    entry ← expected_entry (find_entry q.lane payload.entries) q.expected
    let moved = transferred_entry q now entry
    written ← write_ledger host now (record payload {
      entries = retold_all q.lane (new_identity q) (put_entry moved payload.entries);
    })
    ok (retold q.lane (new_identity q) moved, written)

  unfoldable pub amend_objective :
      Amendment → Option Ledger → Result LifecycleError (Entry × Ledger)
  amend_objective q file = do
    raise_if
        (is_blank_identity q.expected
          || is_blank q.new_objective_id
          || is_blank q.next_action
          || is_blank q.reason)
        identity_required
    raise_if (q.expected.objective_ref == q.new_objective_id) unchanged_objective
    payload ← read_ledger host machine now file
    entry ← expected_entry (find_entry q.lane payload.entries) q.expected
    let amended = amended_entry q now entry
    written ← write_ledger host now (record payload {
      entries = rebound_all q.lane q.new_objective_id (put_entry amended payload.entries);
    })
    ok (amended, written)

  unfoldable pub checkpoint :
      String
      → String
      → Option String
      → PushAnswers
      → Option Ledger
      → Result LifecycleError (RemoteRecovery × Ledger)
  checkpoint lane remote next_action git file = do
    raise_if git.dirty dirty_worktree
    raise_if (is_empty_text git.branch) no_branch
    raise_if (not (remote == git.target_remote)) other_remote
    payload ← read_ledger host machine now file
    entry ← found_active (find_entry lane payload.entries)
    raise_if (is_other_commit git.wire_commit git.commit) readback_mismatch
    let recovery : RemoteRecovery = record {
      branch = some git.branch;
      commit = git.commit;
      tree = git.tree;
    }
    written ← write_ledger host now (record payload {
      entries =
          put_entry
            (record entry {
              remote_recovery = some recovery;
              custody_next_action = action_or next_action entry.custody_next_action;
            })
            payload.entries;
    })
    ok (recovery, written)
