-- ===== src/Custody/Ledger.antt =====
-- Reading and writing the ownership ledger.
use Prim.Native.Nat.{Ordering}
use Prim.Native.String
use opl_flow.Base.{
  String, Bool, false, not, ◌&&◌, ◌||◌, ◌==◌, Option, none, some, List, [], ◌∷◌, member, any,
  if◌then◌else◌, ok, raise_if, ◌>>=◌, ◌>>◌,
}
use opl_flow.Base.Results.{Result}
use opl_flow.Base.Text.{is_blank}
use opl_flow.Custody.Data.{
  LifecycleError, machine_required, recorded_at_required, field_required, repo_root_not_absolute,
  status_unsupported, write_set_blank, duplicate_receipt, Overlap, Entry, Ledger, Host,
  is_active_entry, is_blank_identity,
}

abbrev is_bad_root : Host → Option String → Bool
is_bad_root host none = false
is_bad_root host (some root) = is_blank root || not (host.is_absolute root)

-- the tests on one entry, in the loop
unfoldable pub check_entry : Host → Entry → Result LifecycleError (Unit {0})
check_entry host e = do
  raise_if
      (is_blank e.worktree
        || is_blank_identity e.identity
        || is_blank e.status
        || is_blank e.custody_next_action)
      field_required
  raise_if (is_bad_root host e.repo_root) repo_root_not_absolute
  raise_if (not (member e.status ("ACTIVE" ∷ "SAFE_TO_ARCHIVE" ∷ []))) status_unsupported
  raise_if (any is_blank e.write_set) write_set_blank

-- the loop over the entries, with the worktrees seen
unfoldable pub check_entries : Host → List Entry → List String → Result LifecycleError (Unit {0})
check_entries host [] seen = ok tt
check_entries host (e ∷ es) seen = do
  check_entry host e
  let worktree = host.resolve e.worktree
  raise_if (member worktree seen) duplicate_receipt
  check_entries host es (worktree ∷ seen)

unfoldable pub normalize_ledger : Host → Ledger → Result LifecycleError Ledger
normalize_ledger host l = do
  raise_if (is_blank l.machine) machine_required
  raise_if (is_blank l.recorded_at) recorded_at_required
  check_entries host l.entries []
  ok l

unfoldable pub empty_ledger : String → String → Ledger
empty_ledger machine now = record { machine = machine; recorded_at = now; entries = [] }

-- the ledger that is there, or an empty one for the machine
unfoldable pub read_ledger : Host → String → String → Option Ledger → Result LifecycleError Ledger
read_ledger host machine now none = ok (empty_ledger machine now)
read_ledger host machine now (some l) = normalize_ledger host l

-- the worktrees of the ACTIVE entries
unfoldable pub active_worktrees : List Entry → List String
active_worktrees [] = []
active_worktrees (e ∷ es) =
    let rest = active_worktrees es in if is_active_entry e then e.worktree ∷ rest else rest

unfoldable pub kept_overlaps : List String → String → List Overlap → List Overlap
kept_overlaps active worktree [] = []
kept_overlaps active worktree (o ∷ os) =
    let rest = kept_overlaps active worktree os in
    if member o.worktree active && not (o.worktree == worktree) then o ∷ rest else rest

unfoldable pub pruned : List String → Entry → Entry
pruned active e = record e {
  integration_overlaps = kept_overlaps active e.worktree e.integration_overlaps;
}

unfoldable pub pruned_all : List String → List Entry → List Entry
pruned_all active [] = []
pruned_all active (e ∷ es) = pruned active e ∷ pruned_all active es

unfoldable pub prune_orphaned_integration_overlaps : List Entry → List Entry
prune_orphaned_integration_overlaps es = pruned_all (active_worktrees es) es

-- `sorted(entries, key=lambda item: item["worktree"])`, which keeps the order of equal keys
unfoldable pub insert_entry : Entry → List Entry → List Entry
insert_entry x [] = x ∷ []
insert_entry x (e ∷ es) = elim (String.compare e.worktree x.worktree) [
  | Ordering.lt ↦ e ∷ insert_entry x es
  | _ ↦ x ∷ e ∷ es
]

unfoldable pub sorted_entries : List Entry → List Entry
sorted_entries [] = []
sorted_entries (e ∷ es) = insert_entry e (sorted_entries es)

unfoldable pub write_ledger : Host → String → Ledger → Result LifecycleError Ledger
write_ledger host now l = do
  payload ← normalize_ledger host l
  ok (record payload {
    recorded_at = now;
    entries = sorted_entries (prune_orphaned_integration_overlaps payload.entries);
  })
