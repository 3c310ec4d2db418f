-- ===== src/Owner/Prepare.antt =====
-- The first transitions of opl_task_owner.py, `prepare` and `preflight`, and the tests on claims and
-- evidence that all transitions share. Each works on a copy of the metadata of the issue and
-- returns it; one that raises returns nothing, and the Bead keeps its metadata.
use opl_flow.Base.{
  ℕ, ◌+◌, String, Bool, true, false, not, ◌&&◌, ◌||◌, Option, none, some, [], ◌==◌, eqb,
  if◌then◌else◌, ok, err, raise_if, ◌>>=◌, ◌>>◌,
}
use opl_flow.Base.Results.{Result}
use opl_flow.Base.Int.{ℤ}
use opl_flow.Base.Text.{strip, is_space}
use opl_flow.Json.{Value}
use opl_flow.Execution
use opl_flow.Execution.{WorkspaceEvidence, NodeEvidence}
use opl_flow.Owner.Data.{
  OwnerError, source_node_invalid, source_executor_mismatch, claim_invalid, claim_changed,
  another_migration_active, target_invalid, migration_id_invalid, migration_mismatch,
  not_ready_for_preflight, objective_changed, execution, source_checkpointed, target_preflighted,
  Claim, ClaimEntry, missing, malformed, held, Preflight, Receipt, Metadata, Issue, Digests,
  owner_identity, is_plain_id, instruction_fingerprint, transition,
}
use opl_flow.Owner.States.{is_source_checkpointed, is_target_preflighted, is_active_state}
use opl_flow.Owner.Checkpoint.{CheckpointInput, validate_checkpoint}

-- `except execution.ExecutionError as exc: raise TaskOwnerError(str(exc))`
abbrev pub rewrap {ℓ} : {A : Type ℓ} → Result Execution.ExecutionError A → Result OwnerError A
rewrap (ok a) = ok a
rewrap (err e) = err (execution e)

unfoldable pub validate_workspace_preflight :
    Value → String → String → Result OwnerError WorkspaceEvidence
validate_workspace_preflight v profile_id node_id =
    rewrap (Execution.workspace_evidence v profile_id node_id)

unfoldable pub validate_node_admission : Value → String → String → Result OwnerError NodeEvidence
validate_node_admission v node_id bead_id = rewrap (Execution.node_evidence v node_id bead_id)

-- an equality of claims, field by field
unfoldable pub same_claim : Claim → Claim → Bool
same_claim a b =
    eqb a.generation b.generation
    && a.owner_id == b.owner_id
    && a.node_id == b.node_id
    && a.executor_handle == b.executor_handle

-- `metadata.get("opl_owner_claim") == claim`
unfoldable pub holds_claim : ClaimEntry → Claim → Bool
unfolding same_claim
holds_claim (held c) d = same_claim c d
holds_claim _ d = false

-- `value == s`, where the value may be `None`
abbrev pub is_text : Option String → String → Bool
is_text none s = false
is_text (some t) s = t == s

-- `value in {None, s}`
abbrev pub none_or : Option String → String → Bool
none_or none s = true
none_or (some t) s = t == s

-- the case on the claim that the metadata has
unfoldable pub claim_for :
    Metadata → ClaimEntry → String → String → String → Result OwnerError Claim
claim_for m missing owner node handle = do
  raise_if (not (is_text m.execution_thread handle) || not (none_or m.execution_owner owner))
      source_executor_mismatch
  ok (record { generation = 0; owner_id = owner; node_id = node; executor_handle = handle })
claim_for m malformed owner node handle = err claim_invalid
claim_for m (held c) owner node handle = do
  raise_if
      (not (c.owner_id == owner) || not (c.node_id == node) || not (c.executor_handle == handle))
      claim_changed
  ok c

unfoldable pub current_claim : Metadata → String → String → String → Result OwnerError Claim
current_claim m source_owner_id source_node_id source_executor_handle = do
  owner ← owner_identity source_owner_id
  node ← owner_identity source_node_id
  handle ← owner_identity source_executor_handle
  raise_if (not (is_plain_id node)) source_node_invalid
  claim_for m m.owner_claim owner node handle

-- The arguments of `prepare`, with the migration id that it draws if none is given.
pub record PrepareRequest : Type 0 where
  pub source_owner_id : String
  pub source_node_id : String
  pub source_executor_handle : String
  pub target_owner_id : String
  pub target_node_id : String
  pub target_profile_id : String
  pub instruction_revision : ℤ
  pub instruction_summary : String
  pub checkpoint : CheckpointInput
  pub actor : String
  pub migration_id : String

-- a receipt is there, and its state is neither `completed` nor `rolled_back`
abbrev pub is_active : Option Receipt → Bool
is_active none = false
is_active (some r) = is_active_state r.state

-- `int((active or {}).get("generation", 0))`
abbrev pub last_generation : Option Receipt → ℕ
last_generation none = 0
last_generation (some r) = r.generation

module _ (is_uuid : String → Bool) (digests : Digests) where
  -- the dict of the receipt, before its first transition
  unfoldable pub draft_receipt : Issue → PrepareRequest → Claim → String → Result OwnerError Receipt
  draft_receipt issue q claim now = do
    target_node ← owner_identity q.target_node_id
    profile_id ← owner_identity q.target_profile_id
    raise_if (not (is_plain_id target_node) || not (is_plain_id profile_id)) target_invalid
    raise_if (not (is_uuid q.migration_id)) migration_id_invalid
    let summary = strip is_space q.instruction_summary
    fingerprint ← instruction_fingerprint digests q.instruction_revision summary
    checkpoint ← validate_checkpoint q.checkpoint now
    target_owner ← owner_identity q.target_owner_id
    ok (record {
      migration_id = q.migration_id;
      generation = last_generation issue.metadata.owner_migration + 1;
      state = source_checkpointed;
      bead_id = issue.objective.id;
      objective_fingerprint = digests.of_objective issue.objective;
      instruction = record {
        revision = q.instruction_revision;
        fingerprint = fingerprint;
        summary = summary;
      };
      source_claim = claim;
      source_checkpoint = checkpoint;
      target = record {
        node_id = target_node;
        profile_id = profile_id;
        owner_id = target_owner;
        executor_handle = none;
        preflight = none;
      };
      transitions = [];
    })

  unfoldable pub prepare : Issue → PrepareRequest → String → Result OwnerError Metadata
  prepare issue q now = do
    let m = issue.metadata
    raise_if (is_active m.owner_migration) another_migration_active
    claim ← current_claim m q.source_owner_id q.source_node_id q.source_executor_handle
    draft ← draft_receipt issue q claim now
    receipt ← transition draft source_checkpointed q.actor now
    ok (record m {
      owner_claim = held claim;
      owner_migration = some receipt;
      owner_mutation_frozen = some true;
    })

-- the receipt of the migration that the caller names
unfoldable pub named_receipt : Option Receipt → String → Result OwnerError Receipt
named_receipt none migration_id = err migration_mismatch
named_receipt (some r) migration_id = do
  raise_if (not (r.migration_id == migration_id)) migration_mismatch
  ok r

-- the evidence about the target, fresh from both readbacks
unfoldable pub fresh_evidence : Receipt → Value → Value → Result OwnerError Preflight
fresh_evidence r workspace_readback node_readback = do
  workspace ← validate_workspace_preflight workspace_readback r.target.profile_id r.target.node_id
  node ← validate_node_admission node_readback r.target.node_id r.bead_id
  ok (record { workspace = workspace; node = node })

module _ (digests : Digests) where
  -- the part of `preflight` that follows the return for a repeated call
  unfoldable pub preflight_first :
      Issue → Receipt → Value → Value → String → String → Result OwnerError Metadata
  preflight_first issue r workspace_readback node_readback actor now = do
    raise_if (not (is_source_checkpointed r.state)) not_ready_for_preflight
    raise_if (not (digests.of_objective issue.objective == r.objective_fingerprint))
        objective_changed
    evidence ← fresh_evidence r workspace_readback node_readback
    receipt ←
        transition (record r { target = record r.target { preflight = some evidence } })
          target_preflighted actor now
    ok (record issue.metadata { owner_migration = some receipt })

  unfoldable pub preflight :
      Issue → String → Value → Value → String → String → Result OwnerError Metadata
  preflight issue migration_id workspace_readback node_readback actor now = do
    r ← named_receipt issue.metadata.owner_migration migration_id
    if is_target_preflighted r.state
        then ok issue.metadata
        else preflight_first issue r workspace_readback node_readback actor now
