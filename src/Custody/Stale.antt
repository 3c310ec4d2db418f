-- ===== src/Custody/Stale.antt =====
-- `close_stale` of worktree_lifecycle.py: the receipt of a worktree that is gone, with its branch, is
-- taken out of the ledger when the target has taken up what it recovers. What the file system, Git, the
-- holder scan and the absorption audit answer is an argument; a Git command that fails where the code
-- expects success ends the operation before the file is written, and is left out.
use opl_flow.Base.{
  String, Bool, true, false, not, ◌&&◌, ◌||◌, ◌==◌, ltb, Option, none, some, is_empty,
  if◌then◌else◌, ok, err, raise_if, ◌>>=◌, ◌>>◌,
}
use opl_flow.Base.Results.{Result}
use opl_flow.Custody.Absorption.{Absorption, Presence, present, absent, unverifiable}
use opl_flow.Custody.Data.{
  LifecycleError, not_top_level, superseded_present, superseded_canonical, no_holder_scan,
  superseded_identity, detached_or_canonical, superseded_registered, superseded_held, git_locked,
  target_not_current, recovery_mismatch, receipt_remained, invalid_branch, recovery_unverified,
  patch_unverifiable, not_absorbed, ancestry_unverifiable, RemoteRecovery, has_text, Entry, Ledger,
  Host,
}
use opl_flow.Custody.Ledger.{read_ledger, write_ledger}
use opl_flow.Custody.Close.{without_lane}
use opl_flow.Custody.Superseded.{
  SupersededAnswers, entries_at, unique_active, check_surface, wire_differs,
}

pub record StaleArgs : Type 0 where
  pub root : String
  pub lane_key : String
  pub thread_id : String
  pub objective_id : String
  pub owner : String
  pub branch : String

-- what a close of a superseded receipt asks too, and what is asked about a recovery: the tree of its
-- commit, whether the commit is an ancestor of the target, and the audit, or that it fails
pub record StaleAnswers : Type 0 where
  pub surface : SupersededAnswers
  pub tree_of : String → Option String
  pub ancestor : String → String → Presence
  pub absorption : String → Option Absorption

pub data Absorbed : Type 0 where
  not_applicable exact_merged patch_equivalent : Absorbed

-- `strict_patch_equivalent`
unfoldable pub is_strict : String → String → Absorption → Bool
is_strict target_head commit p =
    p.target_head == target_head
    && p.lane_head == commit
    && p.classification == "patch_equivalent"
    && p.cleanup_allowed
    && ltb 0 p.lane_commit_count
    && not (ltb 0 p.merge_commit_count)
    && not (ltb p.equivalent_commit_count p.lane_commit_count)
    && not (ltb p.lane_commit_count p.equivalent_commit_count)
    && not (ltb 0 p.unabsorbed_commit_count)

abbrev pub has_tree : Option String → String → Bool
has_tree none tree = false
has_tree (some t) tree = t == tree

abbrev pub patched : String → String → Option Absorption → Result LifecycleError Absorbed
patched target_head commit none = err patch_unverifiable
patched target_head commit (some p) =
    if is_strict target_head commit p then ok patch_equivalent else err not_absorbed

abbrev pub merged_or_patched : StaleAnswers → String → Presence → Result LifecycleError Absorbed
merged_or_patched x commit present = ok exact_merged
merged_or_patched x commit absent = patched x.surface.target_head commit (x.absorption commit)
merged_or_patched x commit unverifiable = err ancestry_unverifiable

-- how the target has taken up the commit of a recovery
unfoldable pub absorbed_recovery :
    StaleAnswers → Option RemoteRecovery → Result LifecycleError Absorbed
absorbed_recovery x none = ok not_applicable
absorbed_recovery x (some r) = do
  raise_if (not (has_tree (x.tree_of r.commit) r.tree)) recovery_unverified
  merged_or_patched x r.commit (x.ancestor r.commit x.surface.target_head)

-- the tests before the ledger is read
unfoldable pub check_stale_paths : StaleArgs → SupersededAnswers → Result LifecycleError (Unit {0})
check_stale_paths a x = do
  raise_if (not (x.top == a.root)) not_top_level
  raise_if x.lane_present superseded_present
  raise_if (a.lane_key == a.root) superseded_canonical
  raise_if (not (x.valid_ref a.branch)) invalid_branch
  raise_if (a.branch == x.target_branch) detached_or_canonical
  raise_if (not x.holder_scan) no_holder_scan

-- the receipt is the one that the caller names
unfoldable pub is_stale_receipt : StaleArgs → Entry → Bool
is_stale_receipt a e =
    e.identity.custody_thread_id == a.thread_id
    && e.identity.objective_ref == a.objective_id
    && e.identity.custody_owner == a.owner

abbrev pub names_branch : Option RemoteRecovery → String → Bool
names_branch none branch = true
names_branch (some r) branch = has_text r.branch branch

-- the tests on the receipt and on what is left of the worktree
unfoldable pub check_stale :
    StaleArgs → SupersededAnswers → Entry → Result LifecycleError (Unit {0})
check_stale a x e = do
  raise_if (not (is_stale_receipt a e)) superseded_identity
  raise_if (not (names_branch e.remote_recovery a.branch)) recovery_mismatch
  raise_if x.still_present superseded_present
  raise_if (x.registered || x.administered) superseded_registered
  check_surface x a.branch
  raise_if x.held superseded_held
  raise_if x.locked git_locked
  raise_if (wire_differs x.target_wire x.target_head) target_not_current

module _ (host : Host) (machine now : String) where
  unfoldable pub stale_receipt :
      StaleArgs → StaleAnswers → Option Ledger → Result LifecycleError (Ledger × Entry × Absorbed)
  stale_receipt a x file = do
    check_stale_paths a x.surface
    payload ← read_ledger host machine now file
    entry ← unique_active (entries_at a.lane_key payload.entries)
    check_stale a x.surface entry
    absorbed ← absorbed_recovery x entry.remote_recovery
    ok (payload, entry, absorbed)

  -- `remaining`, on the ledger that is read again
  unfoldable pub check_none_left : StaleArgs → Ledger → Result LifecycleError (Unit {0})
  check_none_left a written = do
    again ← read_ledger host machine now (some written)
    raise_if (not (is_empty (entries_at a.lane_key again.entries))) receipt_remained

  -- the file at the end, and `recovery_absorption`
  unfoldable pub close_stale :
      StaleArgs → StaleAnswers → Option Ledger → Option Ledger × Result LifecycleError Absorbed
  close_stale a x file = elim (stale_receipt a x file) [
    | err e ↦ (file, err e)
    | ok (payload, entry, absorbed) ↦
        elim (write_ledger host now
          (record payload { entries = without_lane a.lane_key payload.entries })) [
            | err e ↦ (file, err e)
            | ok written ↦ (some written, (do check_none_left a written; ok absorbed))
          ]
  ]
