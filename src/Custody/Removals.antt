-- ===== src/Custody/Removals.antt =====
-- The tests and the removals of a close, up to that of the worktree.
use opl_flow.Base.{
  ◌≢◌, ◌⊎◌, refl, Option, some, Bool-cases, String, Bool, true, false, ◌≡◌, inl, inr, ◌==◌, none,
  List, [], ◌∷◌, is_some, arith, eq_iff, ok, Result-cases, if◌then◌else◌,
}
use opl_flow.Base.Results.{Result}
use opl_flow.Custody.Data.{LifecycleError, RemoteRecovery, Entry, find_entry}
use opl_flow.Custody.Transfers.{custody_at, has_text-some}
use opl_flow.Custody.Close.{
  Checkout, LaneAudit, CloseAnswers, is_ready, other_recovery, remote_head, other_head,
  removal_checks, remove_lane, without_lane,
}

-- The tests that a lane has passed before anything is removed.
pub record IsRemovable (entry : Entry) (a : LaneAudit) (x : CloseAnswers) : Type 0 where
  pub tree : String
  pub answered : x.tree ≡ ok tree
  pub ready : a.action ≡ "cleanup_ready"
  pub not_blocking : a.blocking ≡ false
  pub not_target : a.branch ≢ a.target_branch
  pub recovery :
      (entry.remote_recovery ≡ none)
      ⊎ (entry.remote_recovery
          ≡ some (record { branch = some a.branch; commit = a.head; tree = tree }))
  pub pushed :
      (remote_head a.remote_branch_head ≡ none) ⊎ (remote_head a.remote_branch_head ≡ some a.head)

other_recovery-some :
    (o : Option RemoteRecovery) (branch commit tree : String)
    → other_recovery o branch commit tree ≡ false
    → (o ≡ none) ⊎ (o ≡ some (record { branch = some branch; commit = commit; tree = tree }))
other_recovery-some none branch commit tree h = inl refl
other_recovery-some (some r) branch commit tree h =
    inr (ground (arith, has_text-some r.branch branch, eq_iff r.commit commit, eq_iff r.tree tree))

other_head-some :
    (o : Option String) (head : String) → other_head o head ≡ false → (o ≡ none) ⊎ (o ≡ some head)
other_head-some none head h = inl refl
other_head-some (some s) head h = inr (ground (arith, eq_iff s head))

pub removal_checks-IsRemovable :
    (entry : Entry) (a : LaneAudit) (x : CloseAnswers) (deletes : Bool)
    → removal_checks entry a x.tree ≡ ok deletes
    → IsRemovable entry a x × (deletes ≡ is_some (remote_head a.remote_branch_head))
unfolding removal_checks is_ready
removal_checks-IsRemovable entry a x deletes h = elim (Result-cases x.tree) [
  | inr (e, bad) ↦ absurd (ground (arith, bad))
  | inl (tree, answered) ↦ (
    record {
      tree = tree;
      answered = answered;
      ready = ground (arith, answered, eq_iff a.action "cleanup_ready");
      not_blocking = ground (arith, answered);
      not_target = λ same. ground (arith, answered, same, eq_iff a.branch a.target_branch);
      recovery =
          other_recovery-some entry.remote_recovery a.branch a.head tree (ground (arith, answered));
      pushed = other_head-some (remote_head a.remote_branch_head) a.head (ground (arith, answered));
    },
    ground (arith, answered),
  )
]

-- the parts that the removal of a worktree leaves alone
pub record IsKept (w w' : Checkout) : Type 0 where
  pub ledger : w'.ledger ≡ w.ledger
  pub branch : w'.branch ≡ w.branch
  pub index : w'.index ≡ w.index

pub remove_lane-IsKept :
    (detached deletes : Bool) (x : CloseAnswers) (w w' : Checkout)
    (r : Result LifecycleError (Unit {0}))
    → remove_lane detached deletes x w ≡ (w', r)
    → IsKept w w'
unfolding remove_lane
remove_lane-IsKept detached true x w w' r h = record {
  ledger = ground arith;
  branch = ground arith;
  index = ground arith;
}
remove_lane-IsKept detached false x w w' r h = record {
  ledger = ground arith;
  branch = ground arith;
  index = ground arith;
}

pub remove_lane-ok :
    (detached deletes : Bool) (x : CloseAnswers) (w w' : Checkout) (t : Unit {0})
    → remove_lane detached deletes x w ≡ (w', ok t)
    → (w'.worktree ≡ false) × (w'.remote_branch ≡ (if deletes then false else w.remote_branch))
unfolding remove_lane
remove_lane-ok detached true x w w' t h = (ground arith, ground arith)
remove_lane-ok detached false x w w' t h = (ground arith, ground arith)

find_entry-without_lane :
    (lane k : String) (es : List Entry)
    → find_entry k (without_lane lane es) ≡ (if lane == k then none else find_entry k es)
unfolding find_entry without_lane
find_entry-without_lane lane k [] = ground arith
find_entry-without_lane lane k (e ∷ es) = ground (
  arith,
  eq_iff e.worktree lane,
  eq_iff e.worktree k,
  eq_iff lane k,
  find_entry-without_lane lane k es,
)

pub without_lane-custody_at :
    (lane k : String) (es : List Entry)
    → custody_at k (without_lane lane es) ≡ (if lane == k then none else custody_at k es)
without_lane-custody_at lane k es =
    ground (arith, find_entry-without_lane lane k es, Bool-cases (lane == k))
