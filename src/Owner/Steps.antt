-- ===== src/Owner/Steps.antt =====
-- The transitions of opl_task_owner.py. Each works on a copy of the metadata of the issue and
-- returns it; one that raises returns nothing, and the Bead keeps its metadata.
use opl_flow.Base.{
  ◌+◌, String, Bool, false, not, ◌&&◌, ◌||◌, Option, none, some, ◌==◌, if◌then◌else◌, ok, err,
  raise_if, ◌>>=◌, ◌>>◌,
}
use opl_flow.Base.Results.{Result}
use opl_flow.Base.Int.{ℤ, eqb_ℤ}
use opl_flow.Json.{Value}
use opl_flow.Execution.{WorkspaceEvidence}
use opl_flow.Owner.Data.{
  OwnerError, claimed_by_another, not_ready_to_claim, instruction_changed, execution_claim_changed,
  workspace_changed, control_changed, target_readback_mismatch, not_verified, too_late_to_roll_back,
  target_mutation_observed, missing_preflight, target_acknowledged, target_verified, completed,
  rolled_back, held, Preflight, Receipt, Metadata, Issue, owner_identity, transition,
}
use opl_flow.Owner.States.{
  is_target_preflighted, is_target_acknowledged, is_target_verified, is_completed, is_rolled_back,
  is_claimed, is_verified, may_roll_back,
}
use opl_flow.Owner.Prepare.{
  holds_claim, is_text, named_receipt, validate_node_admission, validate_workspace_preflight,
}

-- The fresh workspace evidence shows the fingerprints of the preflight.
abbrev pub same_workspace : WorkspaceEvidence → WorkspaceEvidence → Bool
same_workspace fresh old =
    fresh.workspace_fingerprint == old.workspace_fingerprint
    && fresh.environment_fingerprint == old.environment_fingerprint
    && fresh.repository_fingerprint == old.repository_fingerprint

-- Both readbacks once more, held against the preflight of the receipt. A receipt that has none is
-- the `TypeError` of the subscript.
unfoldable pub confirm_evidence :
    Receipt → Option Preflight → Value → Value → Result OwnerError Preflight
confirm_evidence r none workspace_readback node_readback = err missing_preflight
confirm_evidence r (some old) workspace_readback node_readback = do
  workspace ← validate_workspace_preflight workspace_readback r.target.profile_id r.target.node_id
  raise_if (not (same_workspace workspace old.workspace)) workspace_changed
  node ← validate_node_admission node_readback r.target.node_id r.bead_id
  raise_if (not (node.control_commit == old.node.control_commit)) control_changed
  ok (record { workspace = workspace; node = node })

-- The arguments of `claim`.
pub record ClaimRequest : Type 0 where
  pub target_executor_handle : String
  pub expected_instruction_revision : ℤ
  pub expected_instruction_fingerprint : String
  pub workspace_readback : Value
  pub node_readback : Value
  pub actor : String

-- `claim` of a migration that no executor has claimed
unfoldable pub claim_first :
    Metadata → Receipt → String → ClaimRequest → String → Result OwnerError Metadata
claim_first m r handle q now = do
  raise_if (not (is_target_preflighted r.state)) not_ready_to_claim
  raise_if
      (not (eqb_ℤ r.instruction.revision q.expected_instruction_revision)
        || not (r.instruction.fingerprint == q.expected_instruction_fingerprint))
      instruction_changed
  raise_if (not (holds_claim m.owner_claim r.source_claim)) execution_claim_changed
  evidence ← confirm_evidence r r.target.preflight q.workspace_readback q.node_readback
  receipt ←
      transition
        (record r {
          target = record r.target { preflight = some evidence; executor_handle = some handle };
        })
        target_acknowledged q.actor now
  ok (record m {
    owner_migration = some receipt;
    owner_claim = held (record {
      generation = r.source_claim.generation + 1;
      owner_id = r.target.owner_id;
      node_id = r.target.node_id;
      executor_handle = handle;
    });
    last_execution_thread = some r.source_claim.executor_handle;
    execution_owner = some r.target.owner_id;
    execution_thread = some handle;
    execution_node = some r.target.node_id;
  })

unfoldable pub claim : Issue → String → ClaimRequest → String → Result OwnerError Metadata
claim issue migration_id q now = do
  r ← named_receipt issue.metadata.owner_migration migration_id
  handle ← owner_identity q.target_executor_handle
  if is_claimed r.state
      then (if is_text r.target.executor_handle handle
          then ok issue.metadata
          else err claimed_by_another)
      else claim_first issue.metadata r handle q now

-- `verify_target` of a migration that is not verified
unfoldable pub verify_first :
    Metadata → Receipt → String → Value → Value → String → String → Result OwnerError Metadata
verify_first m r handle workspace_readback node_readback actor now = do
  raise_if
      (not (is_target_acknowledged r.state)
        || not (
            holds_claim m.owner_claim (record {
              generation = r.source_claim.generation + 1;
              owner_id = r.target.owner_id;
              node_id = r.target.node_id;
              executor_handle = handle;
            }))
        || not (is_text m.execution_owner r.target.owner_id)
        || not (is_text m.execution_thread handle)
        || not (is_text r.target.executor_handle handle))
      target_readback_mismatch
  evidence ← confirm_evidence r r.target.preflight workspace_readback node_readback
  receipt ←
      transition (record r { target = record r.target { preflight = some evidence } })
        target_verified actor now
  ok (record m { owner_migration = some receipt })

unfoldable pub verify_target :
    Issue → String → String → Value → Value → String → String → Result OwnerError Metadata
verify_target issue migration_id handle workspace_readback node_readback actor now = do
  r ← named_receipt issue.metadata.owner_migration migration_id
  if is_verified r.state
      then ok issue.metadata
      else verify_first issue.metadata r handle workspace_readback node_readback actor now

unfoldable pub complete_first : Metadata → Receipt → String → String → Result OwnerError Metadata
complete_first m r actor now = do
  raise_if (not (is_target_verified r.state)) not_verified
  receipt ← transition r completed actor now
  ok (record m { owner_migration = some receipt; owner_mutation_frozen = some false })

unfoldable pub release_source : Issue → String → String → String → Result OwnerError Metadata
release_source issue migration_id actor now = do
  r ← named_receipt issue.metadata.owner_migration migration_id
  if is_completed r.state then ok issue.metadata else complete_first issue.metadata r actor now

unfoldable pub rollback_first : Metadata → Receipt → String → String → Result OwnerError Metadata
rollback_first m r actor now = do
  raise_if (not (may_roll_back r.state)) too_late_to_roll_back
  raise_if (not (holds_claim m.owner_claim r.source_claim)) target_mutation_observed
  receipt ← transition r rolled_back actor now
  ok (record m { owner_migration = some receipt; owner_mutation_frozen = some false })

unfoldable pub rollback : Issue → String → String → String → Result OwnerError Metadata
rollback issue migration_id actor now = do
  r ← named_receipt issue.metadata.owner_migration migration_id
  if is_rolled_back r.state then ok issue.metadata else rollback_first issue.metadata r actor now
