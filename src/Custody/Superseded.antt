-- ===== src/Custody/Superseded.antt =====
-- `close_superseded` of worktree_lifecycle.py: the receipt of a worktree that is gone is taken out of
-- the ledger. What the file system, Git and the holder scan answer is an argument; a Git command that
-- fails where the code expects success ends the operation before the file is written, and is left out.
use opl_flow.Base.{
  String, Bool, true, false, not, ◌&&◌, ◌||◌, ◌==◌, Option, none, some, List, [], ◌∷◌, is_some,
  is_empty, if◌then◌else◌, ok, err, raise_if, ◌>>=◌, ◌>>◌,
}
use opl_flow.Base.Results.{Result}
use opl_flow.Base.Text.{is_blank}
use opl_flow.Custody.Absorption.{Presence, present, absent, unverifiable}
use opl_flow.Custody.Data.{
  LifecycleError, reason_required, not_top_level, superseded_present, superseded_canonical,
  no_holder_scan, no_unique_receipt, superseded_identity, recovery_branch_invalid,
  detached_or_canonical, superseded_registered, superseded_ref_present, ref_unverifiable,
  superseded_config, superseded_held, git_locked, target_not_current, archive_required,
  archive_not_required, receipt_remained, RemoteRecovery, Entry, Ledger, Host, is_active_entry,
}
use opl_flow.Custody.Ledger.{read_ledger, write_ledger}

pub record SupersededArgs : Type 0 where
  pub repo_key : String
  pub root : String
  pub lane_key : String
  pub lane : String
  pub thread_id : String
  pub objective_id : String
  pub owner : String
  pub reason : String
  pub has_bundle : Bool
  pub has_digest : Bool

-- the task's branch on a remote: its tracking ref, and its head on the wire
pub record RemoteRefs : Type 0 where
  pub tracking : Presence
  pub wire : Bool

pub record SupersededAnswers : Type 0 where
  pub top : String
  pub lane_present : Bool
  pub target_branch : String
  pub holder_scan : Bool
  pub valid_ref : String → Bool
  pub still_present : Bool
  pub registered : Bool
  pub administered : Bool
  pub local_ref : String → Presence
  pub remotes : String → List RemoteRefs
  pub config : String → Presence
  pub held : Bool
  pub locked : Bool
  pub target_head : String
  pub target_wire : Option String
  pub archive : RemoteRecovery → Result LifecycleError (Unit {0})

-- `[item for item in entries if item["worktree"] == lane]`
unfoldable pub entries_at : String → List Entry → List Entry
entries_at lane [] = []
entries_at lane (e ∷ es) =
    let rest = entries_at lane es in if e.worktree == lane then e ∷ rest else rest

unfoldable pub unique_active : List Entry → Result LifecycleError Entry
unique_active (e ∷ []) = if is_active_entry e then ok e else err no_unique_receipt
unique_active _ = err no_unique_receipt

-- `entries.remove(entry)`, for the first entry of the worktree
unfoldable pub drop_entry : String → List Entry → List Entry
drop_entry lane [] = []
drop_entry lane (e ∷ es) = if e.worktree == lane then es else e ∷ drop_entry lane es

abbrev pub is_root : Option String → String → Bool
is_root none key = false
is_root (some s) key = s == key

-- the receipt is the one that the caller names
unfoldable pub is_named_receipt : SupersededArgs → Entry → Bool
is_named_receipt a e =
    is_root e.repo_root a.repo_key
    && e.worktree == a.lane_key
    && e.identity.custody_thread_id == a.thread_id
    && e.identity.objective_ref == a.objective_id
    && e.identity.custody_owner == a.owner

abbrev pub check_absent : LifecycleError → Presence → Result LifecycleError (Unit {0})
check_absent there present = err there
check_absent there absent = ok tt
check_absent there unverifiable = err ref_unverifiable

unfoldable pub check_remotes : List RemoteRefs → Result LifecycleError (Unit {0})
check_remotes [] = ok tt
check_remotes (r ∷ rs) = do
  check_absent superseded_ref_present r.tracking
  raise_if r.wire superseded_ref_present
  check_remotes rs

-- `recovery.get("branch") if recovery is not None else None`
abbrev pub branch_of : Option RemoteRecovery → Option String
branch_of none = none
branch_of (some r) = r.branch

-- the branch that the recovery names, if it names one, before the worktree is looked for
unfoldable pub check_branch_name :
    SupersededAnswers → Option String → Result LifecycleError (Unit {0})
check_branch_name x none = ok tt
check_branch_name x (some branch) = do
  raise_if (is_blank branch || not (x.valid_ref branch)) recovery_branch_invalid
  raise_if (branch == x.target_branch) detached_or_canonical

-- the branch is nowhere: not local, not tracked, not on a remote, and without configuration
unfoldable pub check_surface : SupersededAnswers → String → Result LifecycleError (Unit {0})
check_surface x branch = do
  check_absent superseded_ref_present (x.local_ref branch)
  check_remotes (x.remotes branch)
  check_absent superseded_config (x.config branch)

abbrev pub check_branch_absent :
    SupersededAnswers → Option String → Result LifecycleError (Unit {0})
check_branch_absent x none = ok tt
check_branch_absent x (some branch) = check_surface x branch

-- a recovery needs an archive that has it, and only a recovery
unfoldable pub check_archive :
    SupersededArgs → SupersededAnswers → Option RemoteRecovery → Result LifecycleError (Unit {0})
check_archive a x none = raise_if (a.has_bundle || a.has_digest) archive_not_required
check_archive a x (some r) = do
  raise_if (not a.has_bundle || not a.has_digest) archive_required
  x.archive r

abbrev pub wire_differs : Option String → String → Bool
wire_differs none head = true
wire_differs (some s) head = not (s == head)

-- the tests before the ledger is read
unfoldable pub check_paths : SupersededArgs → SupersededAnswers → Result LifecycleError (Unit {0})
check_paths a x = do
  raise_if (is_blank a.reason) reason_required
  raise_if (not (x.top == a.root)) not_top_level
  raise_if x.lane_present superseded_present
  raise_if (a.lane == a.root) superseded_canonical
  raise_if (not x.holder_scan) no_holder_scan

-- the tests on the receipt and on what is left of the worktree
unfoldable pub check_superseded :
    SupersededArgs → SupersededAnswers → Entry → Result LifecycleError (Unit {0})
check_superseded a x e = do
  raise_if (not (is_named_receipt a e)) superseded_identity
  check_branch_name x (branch_of e.remote_recovery)
  raise_if x.still_present superseded_present
  raise_if (x.registered || x.administered) superseded_registered
  check_branch_absent x (branch_of e.remote_recovery)
  raise_if x.held superseded_held
  raise_if x.locked git_locked
  raise_if (wire_differs x.target_wire x.target_head) target_not_current
  check_archive a x e.remote_recovery

module _ (host : Host) (machine now : String) where
  unfoldable pub superseded_receipt :
      SupersededArgs → SupersededAnswers → Option Ledger → Result LifecycleError (Ledger × Entry)
  superseded_receipt a x file = do
    check_paths a x
    payload ← read_ledger host machine now file
    entry ← unique_active (entries_at a.lane_key payload.entries)
    check_superseded a x entry
    ok (payload, entry)

  -- `remaining`, on the ledger that is read again
  unfoldable pub check_remaining : SupersededArgs → Ledger → Result LifecycleError (Unit {0})
  check_remaining a written = do
    again ← read_ledger host machine now (some written)
    raise_if (not (is_empty (entries_at a.lane_key again.entries))) receipt_remained

  -- the file at the end, and the classification
  unfoldable pub close_superseded :
      SupersededArgs
      → SupersededAnswers
      → Option Ledger
      → Option Ledger × Result LifecycleError String
  close_superseded a x file = elim (superseded_receipt a x file) [
    | err e ↦ (file, err e)
    | ok (payload, entry) ↦
        elim (write_ledger host now
          (record payload { entries = drop_entry a.lane_key payload.entries })) [
            | err e ↦ (file, err e)
            | ok written ↦ (
              some written,
              (do
                check_remaining a written
                ok (
                    if is_some entry.remote_recovery
                    then "superseded_archived"
                    else "superseded_no_recovery")),
            )
          ]
  ]
