-- ===== src/Owner/Data.antt =====
-- The data of opl_task_owner.py: the metadata of a Bead with its owner claim and the receipt of its
-- migration. A clock reading (`now()`) is an argument, and so is a drawn `uuid.uuid4()`.
use Prim.Native.Char.{code}
use opl_flow.Base.{
  ℕ, String, Bool, true, false, not, ◌&&◌, ◌||◌, Option, List, [], ◌∷◌, ◌++◌, ltb, ok, raise_if,
  ◌>>=◌, ◌>>◌,
}
use opl_flow.Base.Results.{Result}
use opl_flow.Base.Int.{ℤ, pos, ltb_ℤ}
use opl_flow.Base.Text.{
  chars, strip, is_space, is_empty_text, is_slug, is_slug_or_dash, all_chars, is_blank,
}
use opl_flow.Execution.{ExecutionError, WorkspaceEvidence, NodeEvidence}

pub data OwnerError : Type 0 where
  identity_invalid path_not_relative instruction_required : OwnerError
  checkpoint_fields checkpoint_content recovery_fields recovery_entry : OwnerError
  state_invalid source_node_invalid source_executor_mismatch claim_invalid claim_changed :
      OwnerError
  another_migration_active target_invalid migration_id_invalid : OwnerError
  migration_mismatch not_ready_for_preflight objective_changed : OwnerError
  claimed_by_another not_ready_to_claim instruction_changed execution_claim_changed : OwnerError
  workspace_changed control_changed target_readback_mismatch not_verified : OwnerError
  too_late_to_roll_back target_mutation_observed missing_preflight : OwnerError
  -- the text of an `ExecutionError`, raised anew
  execution : ExecutionError → OwnerError

-- `MIGRATION_STATES`, and any other text that stands in a receipt
pub data MigrationState : Type 0 where
  source_checkpointed target_preflighted target_acknowledged target_verified : MigrationState
  completed blocked unknown rolled_back : MigrationState
  other : String → MigrationState

abbrev pub is_migration_state : MigrationState → Bool
is_migration_state (other s) = false
is_migration_state _ = true

pub record Claim : Type 0 where
  pub generation : ℕ
  pub owner_id : String
  pub node_id : String
  pub executor_handle : String

-- `metadata.get("opl_owner_claim")`: `None`, a value that is no claim, or a claim
pub data ClaimEntry : Type 0 where
  missing malformed : ClaimEntry
  held : Claim → ClaimEntry

pub record Recovery : Type 0 where
  pub repository : String
  pub ref : String
  pub commit : String
  pub tree : String

pub record Checkpoint : Type 0 where
  pub recorded_at : String
  pub write_set : List String
  pub remaining : List String
  pub next_action : String
  pub git_recovery : List Recovery

pub record Instruction : Type 0 where
  pub revision : ℤ
  pub fingerprint : String
  pub summary : String

pub record Preflight : Type 0 where
  pub workspace : WorkspaceEvidence
  pub node : NodeEvidence

pub record Target : Type 0 where
  pub node_id : String
  pub profile_id : String
  pub owner_id : String
  pub executor_handle : Option String
  pub preflight : Option Preflight

pub record Transition : Type 0 where
  pub state : MigrationState
  pub recorded_at : String
  pub actor : String

pub record Receipt : Type 0 where
  pub migration_id : String
  pub generation : ℕ
  pub state : MigrationState
  pub bead_id : String
  pub objective_fingerprint : String
  pub instruction : Instruction
  pub source_claim : Claim
  pub source_checkpoint : Checkpoint
  pub target : Target
  pub transitions : List Transition

-- The keys of the metadata that the migration reads or writes; all others stay as they are.
pub record Metadata : Type 0 where
  pub owner_claim : ClaimEntry
  pub owner_migration : Option Receipt
  pub owner_mutation_frozen : Option Bool
  pub execution_owner : Option String
  pub execution_thread : Option String
  pub execution_node : Option String
  pub last_execution_thread : Option String

-- The fields of the issue that make up its objective.
pub record Objective : Type 0 where
  pub id : String
  pub title : Option String
  pub description : Option String
  pub acceptance_criteria : Option String
  pub external_ref : Option String
  pub parent : Option String

pub record Issue : Type 0 where
  pub objective : Objective
  pub metadata : Metadata

-- `digest` of the two values that are fingerprinted: SHA-256 of the canonical JSON text.
pub record Digests : Type 0 where
  pub of_objective : Objective → String
  pub of_instruction : ℤ → String → String

-- `_identity`: the text without blanks at its ends, 1 to 128 characters
unfoldable pub owner_identity : String → Result OwnerError String
owner_identity value = do
  let text = strip is_space value
  raise_if (is_empty_text text) identity_invalid
  raise_if (ltb 128 (chars text)) identity_invalid
  ok text

-- `NODE_ID.fullmatch`, and `PROFILE_ID.fullmatch`: `[a-z0-9][a-z0-9-]{0,62}`
unfoldable pub is_plain_id : String → Bool
is_plain_id String.[] = false
is_plain_id (String.◌∷◌ c s) =
    is_slug (code c) && all_chars is_slug_or_dash s && not (ltb 62 (chars s))

unfoldable pub instruction_fingerprint : Digests → ℤ → String → Result OwnerError String
instruction_fingerprint d revision summary = do
  raise_if (ltb_ℤ revision (pos 1) || is_blank summary) instruction_required
  ok (d.of_instruction revision (strip is_space summary))

-- `_transition`
unfoldable pub transition : Receipt → MigrationState → String → String → Result OwnerError Receipt
transition receipt state actor now = do
  raise_if (not (is_migration_state state)) state_invalid
  name ← owner_identity actor
  ok (record receipt {
    state = state;
    transitions =
        receipt.transitions ++ record { state = state; recorded_at = now; actor = name } ∷ [];
  })
