-- ===== src/Custody/Close.antt =====
-- `close` of worktree_lifecycle.py, under the lock of the ledger. The state has the ledger and what
-- a close can take away: the branch on the remote, the worktree, the local branch and the CodeGraph
-- index of the worktree. What Git, the audits and the proofs about holders answer is an argument.
use opl_flow.Base.{
  String, Bool, true, false, not, ◌&&◌, ◌||◌, ◌==◌, Option, none, some, List, [], ◌∷◌, is_some,
  if◌then◌else◌, ok, err, raise_if, ◌>>=◌, ◌>>◌,
}
use opl_flow.Base.Results.{Result}
use opl_flow.Base.Text.{is_empty_text}
use opl_flow.Custody.Data.{
  LifecycleError, target_not_current, not_cleanup_ready, detached_or_canonical, recovery_mismatch,
  remote_branch_mismatch, readiness_lost, index_target_reappeared, quarantine_remains,
  RemoteRecovery, has_text, Entry, Ledger, Host, find_entry,
}
use opl_flow.Custody.Ledger.{read_ledger, write_ledger}
use opl_flow.Custody.Receipts.{found_active}

-- Where the index of the worktree is: in it or nowhere, in the quarantine, or taken away with it.
pub data IndexPlace : Type 0 where
  in_lane : IndexPlace
  in_quarantine : IndexPlace
  discarded : IndexPlace

pub record Checkout : Type 0 where
  pub ledger : Option Ledger
  pub remote_branch : Bool
  pub worktree : Bool
  pub branch : Bool
  pub index : IndexPlace

-- The parts of an audit that a close reads: those of the lane, and the heads of the target.
pub record LaneAudit : Type 0 where
  pub action : String
  pub blocking : Bool
  pub branch : String
  pub head : String
  pub remote_branch_head : Option String
  pub target_branch : String
  pub target_head : Option String
  pub wire_head : Option String

-- `detach_shared_codegraph_index`: its tests before the move of the index, and those after it
pub record DetachAnswers : Type 0 where
  pub before_move : Result LifecycleError (Unit {0})
  pub after_move : Result LifecycleError (Unit {0})
  pub target_reappeared : Bool

pub record CloseAnswers : Type 0 where
  pub audit : Result LifecycleError LaneAudit
  pub detach : DetachAnswers
  pub detached_audit : Result LifecycleError LaneAudit
  pub tree : Result LifecycleError String
  pub delete_remote : Result LifecycleError (Unit {0})
  pub holder_proof : Result LifecycleError (Unit {0})
  pub final_audit : Result LifecycleError LaneAudit
  pub remove_worktree : Result LifecycleError (Unit {0})
  pub discard_index : Result LifecycleError (Unit {0})
  pub delete_branch : Result LifecycleError (Unit {0})
  pub restore : Result LifecycleError (Unit {0})

abbrev pub Step : Type 0 → Type 0
Step A = Checkout × Result LifecycleError A

-- the canonical target is checked and matches its wire
abbrev pub same_head : Option String → Option String → Bool
same_head (some a) (some b) = not (b == "") && a == b
same_head _ _ = false

unfoldable pub is_ready : LaneAudit → Bool
is_ready a = a.action == "cleanup_ready" && not a.blocking

-- `recovery and recovery != {…}`
abbrev pub other_recovery : Option RemoteRecovery → String → String → String → Bool
other_recovery none branch commit tree = false
other_recovery (some r) branch commit tree =
    not (has_text r.branch branch && r.commit == commit && r.tree == tree)

-- a head of the task's branch on the remote, if there is one
abbrev pub remote_head : Option String → Option String
remote_head none = none
remote_head (some s) = if s == "" then none else some s

abbrev pub other_head : Option String → String → Bool
other_head none head = false
other_head (some s) head = not (s == head)

-- the tests between the audit and the first removal: whether a branch is to be deleted on the remote
unfoldable pub removal_checks :
    Entry → LaneAudit → Result LifecycleError String → Result LifecycleError Bool
removal_checks entry a tree_answer = do
  raise_if (not (is_ready a)) not_cleanup_ready
  tree ← tree_answer
  raise_if (is_empty_text a.branch || a.branch == a.target_branch) detached_or_canonical
  raise_if (other_recovery entry.remote_recovery a.branch a.head tree) recovery_mismatch
  raise_if (other_head (remote_head a.remote_branch_head) a.head) remote_branch_mismatch
  ok (is_some (remote_head a.remote_branch_head))

-- the move of the index to the quarantine, which is undone when a later test fails
unfoldable pub detach_shared_codegraph_index : DetachAnswers → Checkout → Step (Unit {0})
detach_shared_codegraph_index d w = elim d.before_move [
  | err e ↦ (w, err e)
  | ok t ↦ elim d.after_move [
    | ok t' ↦ (record w { index = in_quarantine }, ok t')
    | err e ↦
        if d.target_reappeared
        then (record w { index = in_quarantine }, err index_target_reappeared)
        else (w, err e)
  ]
]

-- an audit after the detach, if the index is to be detached; the flag says that it was
unfoldable pub ready_audit :
    CloseAnswers → LaneAudit → Checkout → Checkout × Bool × Result LifecycleError LaneAudit
ready_audit x a w =
    if a.action == "index_detach_ready" && not a.blocking
    then (let (w', r) = detach_shared_codegraph_index x.detach w in
        elim r [ err e ↦ (w', false, err e) | ok t ↦ (w', true, x.detached_audit) ])
    else (w, false, ok a)

-- the proof and the audit just before the removal of a worktree with a detached index
unfoldable pub final_checks : Bool → CloseAnswers → Result LifecycleError (Unit {0})
final_checks false x = ok tt
final_checks true x = do
  x.holder_proof
  a ← x.final_audit
  raise_if (not (is_ready a)) readiness_lost

-- the removals up to that of the worktree
unfoldable pub remove_lane : Bool → Bool → CloseAnswers → Checkout → Step (Unit {0})
remove_lane detached deletes x w = elim (if deletes then x.delete_remote else ok tt) [
  | err e ↦ (w, err e)
  | ok t ↦
      let w' : Checkout = if deletes then record w { remote_branch = false } else w in
      elim (final_checks detached x) [
        | err e ↦ (w', err e)
        | ok t' ↦ elim x.remove_worktree [
          | err e ↦ (w', err e)
          | ok t'' ↦ (record w' { worktree = false }, ok tt)
        ]
      ]
]

-- `[item for item in entries if item["worktree"] != lane]`
unfoldable pub without_lane : String → List Entry → List Entry
without_lane lane [] = []
without_lane lane (e ∷ es) =
    let rest = without_lane lane es in if e.worktree == lane then rest else e ∷ rest

module _ (host : Host) (machine now : String) where
  -- what follows the removal of the worktree
  unfoldable pub finish_close : Bool → String → CloseAnswers → Ledger → Checkout → Step (Unit {0})
  finish_close detached lane x payload w = elim (if detached then x.discard_index else ok tt) [
    | err e ↦ (w, err e)
    | ok t ↦
        let w' : Checkout = if detached then record w { index = discarded } else w in
        elim x.delete_branch [
          | err e ↦ (w', err e)
          | ok t' ↦
              elim (write_ledger host now
                (record payload { entries = without_lane lane payload.entries })) [
                  | err e ↦ (record w' { branch = false }, err e)
                  | ok written ↦ (record w' { branch = false; ledger = some written }, ok tt)
                ]
        ]
  ]

  -- the handler: a detached index goes back while the worktree is there
  unfoldable pub recover : Bool → CloseAnswers → Checkout → LifecycleError → Step (Unit {0})
  recover false x w e = (w, err e)
  recover true x w e =
      if w.worktree
      then elim x.restore [ err e' ↦ (w, err e') | ok t ↦ (record w { index = in_lane }, err e) ]
      else elim w.index [ in_quarantine ↦ (w, err quarantine_remains) | _ ↦ (w, err e) ]

  abbrev pub or_recover : Bool → CloseAnswers → Step (Unit {0}) → Step (Unit {0})
  or_recover detached x (w, ok t) = (w, ok t)
  or_recover detached x (w, err e) = recover detached x w e

  -- the removals, with the worktree still there
  unfoldable pub close_removals :
      Bool → String → CloseAnswers → Entry → LaneAudit → Ledger → Checkout → Step (Unit {0})
  close_removals detached lane x entry a payload w = elim (removal_checks entry a x.tree) [
    | err e ↦ (w, err e)
    | ok deletes ↦
        let (w', r) = remove_lane detached deletes x w in
        elim r [ err e ↦ (w', err e) | ok t ↦ finish_close detached lane x payload w' ]
  ]

  -- the part of a close before its first change
  unfoldable pub close_admission :
      String → CloseAnswers → Checkout → Result LifecycleError (Ledger × Entry × LaneAudit)
  close_admission lane x w = do
    payload ← read_ledger host machine now w.ledger
    entry ← found_active (find_entry lane payload.entries)
    a ← x.audit
    raise_if (not (same_head a.target_head a.wire_head)) target_not_current
    ok (payload, entry, a)

  -- the body of the `try`
  unfoldable pub close_body :
      Bool
      → String
      → CloseAnswers
      → Entry
      → Result LifecycleError LaneAudit
      → Ledger
      → Checkout
      → Step (Unit {0})
  close_body detached lane x entry (err e) payload w = (w, err e)
  close_body detached lane x entry (ok a) payload w =
      close_removals detached lane x entry a payload w

  unfoldable pub close : String → CloseAnswers → Checkout → Step (Unit {0})
  close lane x w = elim (close_admission lane x w) [
    | err e ↦ (w, err e)
    | ok (payload, entry, a) ↦
        let (w', detached, r) = ready_audit x a w in
        or_recover detached x (close_body detached lane x entry r payload w')
  ]
