-- ===== src/Custody/Tests.antt =====
-- Receipts of two worktrees, and the theorems at concrete ledgers.
mod Superseded
mod Stale
mod Absorption
use opl_flow.Base.{
  All, false, String, true, ◌≡◌, ◌≢◌, ◌⊎◌, refl, none, some, [], ◌∷◌, ok, err, all, member,
  sorted_set, insert_sorted,
}
use opl_flow.Base.Text.{is_blank, is_space, lstrip, rstrip, strip}
use opl_flow.Base.Results.{Result}
use opl_flow.Base.Paths.{path_parts, starts_with_slash}
use opl_flow.Custody.Data.{
  RemoteRecovery, LifecycleError, other_receipt, identity_changed, Identity, Entry, Ledger, Host,
  same_identity, is_blank_identity, is_active_entry, find_entry, put_entry, pure_parts, join_path,
  normal_paths, normalize_write_set, resolve_repo, canonical_checkout,
}
use opl_flow.Custody.Ledger.{
  check_entry, check_entries, normalize_ledger, empty_ledger, read_ledger, active_worktrees,
  kept_overlaps, pruned, pruned_all, prune_orphaned_integration_overlaps, insert_entry,
  sorted_entries, write_ledger,
}
use opl_flow.Custody.Receipts.{
  PushAnswers, found_active, register, transfer_owner, amend_objective, checkpoint,
}
use opl_flow.Custody.Changes.{
  common, insert_overlap, integration_overlaps, Registration, registered_entry, registered_entries,
  expected_entry, TransferRequest, new_identity, transferred_entry, retold_overlaps, retold,
  retold_all, Amendment, amended_entry, rebound_overlaps, rebound, rebound_all,
}
use opl_flow.Custody.Overlaps.{tells, IsLive, write_ledger-IsLive, transfer_owner-tells}
use opl_flow.Custody.Transfers.{
  recovery_of, pushed_entry, checkpoint-Puts, Puts, custody_of, with_objective, register-Puts,
  Transferred, transfer_owner-Puts, amend_objective-Puts,
}
use opl_flow.Custody.Data.{call_failed}
use opl_flow.Custody.Close.{
  in_lane, Checkout, LaneAudit, CloseAnswers, Step, is_ready, removal_checks,
  detach_shared_codegraph_index, ready_audit, final_checks, remove_lane, without_lane, finish_close,
  recover, close_removals, close_admission, close_body, close,
}

-- unfolds all that the operations call
unfoldable custody_code : Unit {0}
unfolding member sorted_set insert_sorted is_blank is_space lstrip rstrip strip path_parts
    starts_with_slash same_identity is_blank_identity is_active_entry find_entry put_entry
    pure_parts join_path normal_paths normalize_write_set resolve_repo check_entry check_entries
    normalize_ledger empty_ledger read_ledger active_worktrees kept_overlaps pruned pruned_all
    prune_orphaned_integration_overlaps insert_entry sorted_entries write_ledger common
    insert_overlap integration_overlaps registered_entry registered_entries expected_entry
    transferred_entry retold_overlaps retold retold_all amended_entry rebound_overlaps rebound
    rebound_all found_active register transfer_owner amend_objective checkpoint
custody_code = tt

-- and all that a close calls
unfoldable closing_code : Unit {0}
unfolding custody_code is_ready removal_checks detach_shared_codegraph_index ready_audit
    final_checks remove_lane without_lane finish_close recover close_removals close_admission
    close_body close
closing_code = tt

-- a host on which every path is absolute, is there, and belongs to one repository
abbrev pub sample_host : Host
sample_host = record {
  resolve = λ p. p;
  is_absolute = λ p. true;
  exists = λ p. true;
  common_dir = λ p. "/repo/.git";
}

abbrev identity_of : String → Identity
identity_of name = record {
  custody_thread_id = name;
  objective_ref = "bd-12";
  custody_owner = name;
  custody_executor = name;
}

abbrev registration_of : String → String → Registration
registration_of lane name = record {
  root = "/repo";
  lane = lane;
  identity = identity_of name;
  next_action = "go on";
  write_set = "scripts//a.py" ∷ "./docs" ∷ [];
}

abbrev pair_of : Result LifecycleError (Entry × Ledger) → Entry × Ledger
pair_of (ok p) = p
pair_of (err e) = (
  record {
    worktree = "";
    repo_root = none;
    identity = identity_of "";
    status = "";
    custody_next_action = "";
    write_set = [];
    integration_overlaps = [];
    remote_recovery = none;
    custody_transfers = [];
    objective_rebindings = [];
    updated_at = none;
  },
  record { machine = ""; recorded_at = ""; entries = [] },
)

abbrev first : Entry × Ledger
first = pair_of (register sample_host "mac" "t1" (registration_of "/lanes/b" "alice") none)

abbrev pub second : Entry × Ledger
second = pair_of (register sample_host "mac" "t2" (registration_of "/lanes/a" "bob") (some first.1))

-- the second lane reports its overlap with the first, under the normal forms of the paths
second_overlaps :
    second.0.integration_overlaps
    ≡ record {
      worktree = "/lanes/b";
      custody_thread_id = "alice";
      objective_ref = "bd-12";
      custody_owner = "alice";
      paths = "docs" ∷ "scripts/a.py" ∷ [];
    }
      ∷ []
unfolding custody_code
second_overlaps = refl

taken_lane :
    register sample_host "mac" "t3" (registration_of "/lanes/a" "carol") (some second.1)
    ≡ err other_receipt
unfolding custody_code
taken_lane = refl

canonical_lane : resolve_repo "/repo" "/repo" ("/repo" ∷ "/lanes/a" ∷ []) ≡ err canonical_checkout
unfolding custody_code
canonical_lane = refl

abbrev sample_transfer : TransferRequest
sample_transfer = record {
  lane = "/lanes/b";
  expected = identity_of "alice";
  new_thread_id = "carol";
  new_owner = "carol";
  new_execution_owner = "carol";
  next_action = "take over";
  reason = "handoff";
}

abbrev transferred : Entry × Ledger
transferred = pair_of (transfer_owner sample_host "mac" "t4" sample_transfer (some second.1))

transferred_again :
    transfer_owner sample_host "mac" "t5" sample_transfer (some transferred.1)
    ≡ err identity_changed
unfolding custody_code
transferred_again = refl

abbrev sample_amendment : Amendment
sample_amendment = record {
  lane = "/lanes/b";
  expected = identity_of "alice";
  new_objective_id = "bd-13";
  next_action = "go on";
  reason = "split";
}

abbrev amended : Entry × Ledger
amended = pair_of (amend_objective sample_host "mac" "t4" sample_amendment (some second.1))

register-Puts_example :
    Puts "/lanes/a" second.0 first.1 second.1
    × (second.0.identity ≡ identity_of "bob")
    × (second.0.status ≡ "ACTIVE")
    × (normalize_write_set ("scripts//a.py" ∷ "./docs" ∷ []) ≡ ok second.0.write_set)
    × ((find_entry "/lanes/a" first.1.entries ≡ none)
        ⊎ ((e : Entry) × (find_entry "/lanes/a" first.1.entries ≡ some e)
            × (e.identity ≡ identity_of "bob")))
unfolding custody_code
register-Puts_example =
    register-Puts sample_host "mac" "t2" (some first.1) first.1 second.1 second.0 refl
      (registration_of "/lanes/a" "bob") refl

transfer_owner-Puts_example :
    (e : Entry) × (find_entry "/lanes/b" second.1.entries ≡ some e)
    × (is_active_entry e ≡ true)
    × (e.identity ≡ identity_of "alice")
    × Transferred sample_transfer "t4" e transferred.0
    × (transferred.0.identity ≡ new_identity sample_transfer)
    × (new_identity sample_transfer ≢ identity_of "alice")
    × Puts "/lanes/b" transferred.0 second.1 transferred.1
unfolding custody_code
transfer_owner-Puts_example =
    transfer_owner-Puts sample_host "mac" "t4" (some second.1) second.1 transferred.1 transferred.0
      refl sample_transfer refl

amend_objective-Puts_example :
    (e : Entry) × (find_entry "/lanes/b" second.1.entries ≡ some e)
    × (is_active_entry e ≡ true)
    × (e.identity ≡ identity_of "alice")
    × (amended.0.identity ≡ with_objective (identity_of "alice") "bd-13")
    × (sample_amendment.new_objective_id ≢ sample_amendment.expected.objective_ref)
    × Puts "/lanes/b" amended.0 second.1 amended.1
unfolding custody_code
amend_objective-Puts_example =
    amend_objective-Puts sample_host "mac" "t4" (some second.1) second.1 amended.1 amended.0 refl
      sample_amendment refl

-- the receipt of the second lane, as the ledger holds it after the transfer
abbrev retold_second : Entry
retold_second = record second.0 {
  integration_overlaps =
      record {
        worktree = "/lanes/b";
        custody_thread_id = "carol";
        objective_ref = "bd-12";
        custody_owner = "carol";
        paths = "docs" ∷ "scripts/a.py" ∷ [];
      }
      ∷ [];
}

transfer_owner-tells_example :
    all (λ o. tells "/lanes/b" (new_identity sample_transfer) o) retold_second.integration_overlaps
    ≡ true
unfolding custody_code
transfer_owner-tells_example =
    transfer_owner-tells sample_host "mac" "t4" (some second.1) transferred.1 sample_transfer
      transferred.0 "/lanes/a" retold_second refl refl

write_ledger-IsLive_example :
    All (λ o. IsLive second.1.entries "/lanes/a" o) second.0.integration_overlaps
unfolding custody_code
write_ledger-IsLive_example =
    write_ledger-IsLive sample_host "t9" second.1 (record second.1 { recorded_at = "t9" })
      "/lanes/a" second.0 refl refl

abbrev pub sample_answers : PushAnswers
sample_answers = record {
  dirty = false;
  branch = "lane-b";
  target_remote = "origin";
  commit = "0123456789abcdef0123456789abcdef01234567";
  tree = "76543210fedcba9876543210fedcba9876543210";
  wire_commit = some "0123456789abcdef0123456789abcdef01234567";
}

abbrev ledger_of : Result LifecycleError (RemoteRecovery × Ledger) → Ledger
ledger_of (ok p) = p.1
ledger_of (err e) = record { machine = ""; recorded_at = ""; entries = [] }

abbrev pub pushed_ledger : Ledger
pushed_ledger =
    ledger_of
      (checkpoint sample_host "mac" "t5" "/lanes/b" "origin" none sample_answers (some second.1))

checkpoint-Puts_example :
    (sample_answers.dirty ≡ false)
    × (sample_answers.target_remote ≡ sample_answers.target_remote)
    × (sample_answers.wire_commit ≡ some sample_answers.commit)
    × (recovery_of sample_answers ≡ recovery_of sample_answers)
    × (e : Entry) × (find_entry "/lanes/b" second.1.entries ≡ some e)
    × (is_active_entry e ≡ true)
    × Puts "/lanes/b" (pushed_entry none sample_answers e) second.1 pushed_ledger
unfolding custody_code
checkpoint-Puts_example =
    checkpoint-Puts sample_host "mac" "t5" (some second.1) second.1 pushed_ledger refl "/lanes/b"
      "origin" none sample_answers (recovery_of sample_answers) refl

-- a lane with a CodeGraph index that other processes share
abbrev ready_audit_of : String → LaneAudit
ready_audit_of action = record {
  action = action;
  blocking = false;
  branch = "task/a";
  head = "c1";
  remote_branch_head = some "c1";
  target_branch = "main";
  target_head = some "m1";
  wire_head = some "m1";
}

abbrev close_answers : CloseAnswers
close_answers = record {
  audit = ok (ready_audit_of "index_detach_ready");
  detach = record { before_move = ok tt; after_move = ok tt; target_reappeared = false };
  detached_audit = ok (ready_audit_of "cleanup_ready");
  tree = ok "t1";
  delete_remote = ok tt;
  holder_proof = ok tt;
  final_audit = ok (ready_audit_of "cleanup_ready");
  remove_worktree = ok tt;
  discard_index = ok tt;
  delete_branch = ok tt;
  restore = ok tt;
}

abbrev open_checkout : Checkout
open_checkout = record {
  ledger = some second.1;
  remote_branch = true;
  worktree = true;
  branch = true;
  index = in_lane;
}

abbrev closed_step : Step (Unit {0})
closed_step = close sample_host "mac" "t9" "/lanes/b" close_answers open_checkout

closed_well : closed_step.1 ≡ ok tt
unfolding closing_code
closed_well = refl

-- a worktree that cannot be removed keeps its index, but not its branch on the remote
abbrev refused_step : Step (Unit {0})
refused_step =
    close sample_host "mac" "t9" "/lanes/b"
      (record close_answers { remove_worktree = err (call_failed "worktree remove") }) open_checkout

closed_badly :
    refused_step
    ≡ (record open_checkout { remote_branch = false }, err (call_failed "worktree remove"))
unfolding closing_code
closed_badly = refl
