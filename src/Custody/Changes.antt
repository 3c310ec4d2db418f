-- ===== src/Custody/Changes.antt =====
-- What the operations on receipts of worktree_lifecycle.py make of the entries of the ledger.
use Prim.Native.Nat.{Ordering}
use Prim.Native.String
use opl_flow.Base.{
  String, not, ◌||◌, ◌==◌, Option, none, some, List, [], ◌∷◌, ◌++◌, member, sorted_set, is_empty,
  if◌then◌else◌, ok, err, raise_if, ◌>>◌,
}
use opl_flow.Base.Results.{Result}
use opl_flow.Base.Text.{strip, is_space}
use opl_flow.Custody.Data.{
  LifecycleError, other_receipt, no_active_receipt, identity_changed, Identity, Overlap, Entry,
  Host, same_identity, is_active_entry, put_entry,
}

-- the elements that are members of the second list
unfoldable pub common : List String → List String → List String
common [] ys = []
common (x ∷ xs) ys = let rest = common xs ys in if member x ys then x ∷ rest else rest

unfoldable pub insert_overlap : Overlap → List Overlap → List Overlap
insert_overlap x [] = x ∷ []
insert_overlap x (o ∷ os) = elim (String.compare o.worktree x.worktree) [
  | Ordering.lt ↦ o ∷ insert_overlap x os
  | Ordering.gt ↦ x ∷ o ∷ os
  | Ordering.eq ↦ elim (String.compare o.custody_owner x.custody_owner) [
    | Ordering.lt ↦ o ∷ insert_overlap x os
    | _ ↦ x ∷ o ∷ os
  ]
]

-- the overlaps with the other ACTIVE worktrees of the same repository, sorted
unfoldable pub integration_overlaps : Host → List Entry → String → List String → List Overlap
integration_overlaps host [] lane desired = []
integration_overlaps host (e ∷ es) lane desired =
    let rest = integration_overlaps host es lane desired in
    let other = host.resolve e.worktree in
    let paths = sorted_set (common e.write_set desired) in
    if other == lane
      || not (is_active_entry e)
      || not (host.exists other)
      || not (host.common_dir other == host.common_dir lane)
      || is_empty paths
    then rest
    else insert_overlap
        (record {
          worktree = other;
          custody_thread_id = e.identity.custody_thread_id;
          objective_ref = e.identity.objective_ref;
          custody_owner = e.identity.custody_owner;
          paths = paths;
        })
        rest

-- The arguments of `register`, after `resolve_repo`.
pub record Registration : Type 0 where
  pub root : String
  pub lane : String
  pub identity : Identity
  pub next_action : String
  pub write_set : List String

-- the entry that `register` leaves, for the entry that is there
unfoldable pub registered_entry :
    Registration → Option Entry → List String → List Overlap → Result LifecycleError Entry
registered_entry q none desired overlaps = ok (record {
  worktree = q.lane;
  repo_root = some q.root;
  identity = q.identity;
  status = "ACTIVE";
  custody_next_action = q.next_action;
  write_set = desired;
  integration_overlaps = overlaps;
  remote_recovery = none;
  custody_transfers = [];
  objective_rebindings = [];
  updated_at = none;
})
registered_entry q (some e) desired overlaps = do
  raise_if (not (same_identity e.identity q.identity)) other_receipt
  ok (record e {
    repo_root = some q.root;
    status = "ACTIVE";
    custody_next_action = q.next_action;
    write_set = desired;
    integration_overlaps = overlaps;
  })

-- the entries with the registered one: in the place of the old one, or at the end
unfoldable pub registered_entries : Option Entry → Entry → List Entry → List Entry
registered_entries none x es = es ++ x ∷ []
registered_entries (some e) x es = put_entry x es

-- the ACTIVE entry of the lane, with the identity that the caller expects
unfoldable pub expected_entry : Option Entry → Identity → Result LifecycleError Entry
expected_entry none expected = err no_active_receipt
expected_entry (some e) expected = do
  raise_if (not (is_active_entry e)) no_active_receipt
  raise_if (not (same_identity e.identity expected)) identity_changed
  ok e

-- The arguments of `transfer_owner`; the objective stays.
pub record TransferRequest : Type 0 where
  pub lane : String
  pub expected : Identity
  pub new_thread_id : String
  pub new_owner : String
  pub new_execution_owner : String
  pub next_action : String
  pub reason : String

abbrev pub new_identity : TransferRequest → Identity
new_identity q = record q.expected {
  custody_thread_id = q.new_thread_id;
  custody_owner = q.new_owner;
  custody_executor = q.new_execution_owner;
}

unfoldable pub transferred_entry : TransferRequest → String → Entry → Entry
transferred_entry q now e = record e {
  identity = new_identity q;
  custody_next_action = q.next_action;
  custody_transfers =
      e.custody_transfers
      ++ record {
        recorded_at = now;
        reason = strip is_space q.reason;
        before = q.expected;
        before_next_action = e.custody_next_action;
        after = new_identity q;
        after_next_action = q.next_action;
      }
        ∷ [];
}

-- every overlap that names the lane tells of its new owner
unfoldable pub retold_overlaps : String → Identity → List Overlap → List Overlap
retold_overlaps lane i [] = []
retold_overlaps lane i (o ∷ os) =
    let rest = retold_overlaps lane i os in
    if o.worktree == lane
    then record o {
      custody_thread_id = i.custody_thread_id;
      objective_ref = i.objective_ref;
      custody_owner = i.custody_owner;
    }
      ∷ rest
    else o ∷ rest

unfoldable pub retold : String → Identity → Entry → Entry
retold lane i e = record e { integration_overlaps = retold_overlaps lane i e.integration_overlaps }

unfoldable pub retold_all : String → Identity → List Entry → List Entry
retold_all lane i [] = []
retold_all lane i (e ∷ es) = retold lane i e ∷ retold_all lane i es

-- The arguments of `amend_objective`.
pub record Amendment : Type 0 where
  pub lane : String
  pub expected : Identity
  pub new_objective_id : String
  pub next_action : String
  pub reason : String

unfoldable pub amended_entry : Amendment → String → Entry → Entry
amended_entry q now e = record e {
  identity = record e.identity { objective_ref = q.new_objective_id };
  custody_next_action = q.next_action;
  updated_at = some now;
  objective_rebindings =
      e.objective_rebindings
      ++ record {
        recorded_at = now;
        reason = strip is_space q.reason;
        actor = q.expected;
        after_objective_ref = q.new_objective_id;
        before_next_action = e.custody_next_action;
        after_next_action = q.next_action;
      }
        ∷ [];
}

unfoldable pub rebound_overlaps : String → String → List Overlap → List Overlap
rebound_overlaps lane objective [] = []
rebound_overlaps lane objective (o ∷ os) =
    let rest = rebound_overlaps lane objective os in
    if o.worktree == lane then record o { objective_ref = objective } ∷ rest else o ∷ rest

-- the overlaps of the other ACTIVE entries that name the lane
unfoldable pub rebound : String → String → Entry → Entry
rebound lane objective e =
    if e.worktree == lane || not (is_active_entry e)
    then e
    else record e { integration_overlaps = rebound_overlaps lane objective e.integration_overlaps }

unfoldable pub rebound_all : String → String → List Entry → List Entry
rebound_all lane objective [] = []
rebound_all lane objective (e ∷ es) = rebound lane objective e ∷ rebound_all lane objective es
