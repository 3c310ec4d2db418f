-- ===== src/Owner/Tests.antt =====
-- A migration from beginning to end, and the theorems at concrete metadata.
use opl_flow.Base.{
  ◌⊎◌, ◌<◌, String, Bool, true, ◌≡◌, ◌≢◌, refl, none, some, List, [], ◌∷◌, eqb, err, member,
  texts_eq, sorted_set, insert_sorted, subset, last_n,
}
use opl_flow.Base.Int.{pos}
use opl_flow.Base.Text.{
  is_slug, is_slug_or_dash, is_hex, is_space, is_blank, is_hex_of, lstrip, rstrip, strip, chars,
}
use opl_flow.Base.Paths.{path_parts, starts_with_slash}
use opl_flow.Json.{
  Value, text, flag, obj, field, no_field, get, get_field, field_names, has_exactly, is_text_at,
}
use opl_flow.Execution.{identity, hex_text, workspace_evidence, node_evidence}
use opl_flow.Owner.Data.{
  claimed_by_another, too_late_to_roll_back, owner_identity, is_plain_id, instruction_fingerprint,
  transition, source_checkpointed, Claim, missing, held, Preflight, Receipt, Metadata, Objective,
  Issue, Digests,
}
use opl_flow.Owner.Checkpoint.{
  relative, relatives, is_repository, recovery_entries, validate_checkpoint,
}
use opl_flow.Owner.Steps.{
  ClaimRequest, confirm_evidence, claim_first, claim, verify_first, verify_target, complete_first,
  release_source, rollback_first, rollback,
}
use opl_flow.Owner.Prepare.{
  PrepareRequest, validate_workspace_preflight, validate_node_admission, same_claim, holds_claim,
  claim_for, current_claim, draft_receipt, prepare, named_receipt, fresh_evidence, preflight_first,
  preflight,
}
use opl_flow.Owner.Calls.{
  Call, preparing, preflighting, claiming, verifying, rolling_back, kept, respond, run_calls,
}
use opl_flow.Owner.Invariant.{IsConsistent}
use opl_flow.Owner.Runs.{run_calls-IsConsistent, run_calls-Advances}
use opl_flow.Owner.Claims.{Confirms, claim-claim, rollback-claim, claim-Confirms}
use opl_flow.Owner.Success.{remaining_calls, Taken, run_calls_completes}

-- unfolds all that the transitions call
unfoldable owner_code : Unit {0}
unfolding last_n member texts_eq sorted_set insert_sorted subset is_slug is_slug_or_dash is_hex
    is_space is_blank is_hex_of lstrip rstrip strip get get_field field_names has_exactly is_text_at
    identity hex_text workspace_evidence node_evidence owner_identity is_plain_id
    instruction_fingerprint transition path_parts starts_with_slash relative relatives is_repository
    recovery_entries validate_checkpoint validate_workspace_preflight validate_node_admission
    same_claim holds_claim claim_for current_claim draft_receipt prepare named_receipt
    fresh_evidence preflight_first preflight confirm_evidence claim_first claim verify_first
    verify_target complete_first release_source rollback_first rollback respond run_calls
owner_code = tt

-- stands for `uuid.UUID` on the ids of these examples
abbrev sample_uuid : String → Bool
sample_uuid s = eqb (chars s) 36

-- stands for the two fingerprints: texts that tell these examples apart
abbrev sample_digests : Digests
sample_digests = record { of_objective = λ o. o.id; of_instruction = λ revision summary. summary }

abbrev sample_objective : Objective
sample_objective = record {
  id = "bd-12";
  title = some "Move the build";
  description = none;
  acceptance_criteria = none;
  external_ref = none;
  parent = none;
}

abbrev sample_metadata : Metadata
sample_metadata = record {
  owner_claim = missing;
  owner_migration = none;
  owner_mutation_frozen = none;
  execution_owner = some "owner-a";
  execution_thread = some "thread-a";
  execution_node = none;
  last_execution_thread = none;
}

abbrev commit_text : String
commit_text = "0123456789abcdef0123456789abcdef01234567"

abbrev hash_text : String
hash_text = "0123456789abcdef0123456789abcdef0123456789abcdef0123456789abcdef"

abbrev sample_prepare : PrepareRequest
sample_prepare = record {
  source_owner_id = "owner-a";
  source_node_id = "node-a";
  source_executor_handle = "thread-a";
  target_owner_id = "owner-b";
  target_node_id = "node-b";
  target_profile_id = "profile-b";
  instruction_revision = pos 1;
  instruction_summary = "Go on";
  checkpoint = record {
    write_set = "scripts/a.py" ∷ "scripts/b.py" ∷ [];
    remaining = "tests" ∷ [];
    next_action = "run the tests";
    git_recovery =
        record { repository = "me/repo"; ref = "main"; commit = commit_text; tree = commit_text }
        ∷ [];
  };
  actor = "alice";
  migration_id = "11111111-2222-3333-4444-555555555555";
}

abbrev sample_workspace : Value
sample_workspace = obj (
    field "schema" (text "opl_execution_workspace.v1") (
      field "profile_id" (text "profile-b") (
        field "node_id" (text "node-b") (
          field "ready" (flag true) (
            field "workspace_fingerprint" (text hash_text) (
              field "environment_fingerprint" (text hash_text) (
                field "repository_fingerprint" (text hash_text)
                  (field "checked_at" (text "2026-01-01T00:00:00Z") no_field))))))))

abbrev sample_node : Value
sample_node = obj (
    field "schema" (text "opl_execution_admission.v1") (
      field "node_id" (text "node-b") (
        field "objective_id" (text "bd-12") (
          field "ready" (flag true) (
            field "control_commit" (text commit_text)
              (field "checked_at" (text "2026-01-01T00:00:00Z") no_field))))))

abbrev sample_claim : String → ClaimRequest
sample_claim handle = record {
  target_executor_handle = handle;
  expected_instruction_revision = pos 1;
  expected_instruction_fingerprint = "Go on";
  workspace_readback = sample_workspace;
  node_readback = sample_node;
  actor = "bob";
}

abbrev sample_id : String
sample_id = "11111111-2222-3333-4444-555555555555"

abbrev issue_of : Metadata → Issue
issue_of m = record { objective = sample_objective; metadata = m }

abbrev prepared : Metadata
prepared =
    kept sample_metadata
      (prepare sample_uuid sample_digests (issue_of sample_metadata) sample_prepare "t1")

abbrev preflighted : Metadata
preflighted =
    kept prepared (
      preflight sample_digests (issue_of prepared) sample_id sample_workspace sample_node "bob"
        "t2")

abbrev claimed : Metadata
claimed = kept preflighted (claim (issue_of preflighted) sample_id (sample_claim "thread-b") "t3")

-- a rolled-back migration, and then a claim of a second one by two executors
abbrev sample_calls : List (Objective × Call)
sample_calls =
    (sample_objective, preparing sample_prepare "t1")
    ∷ (sample_objective, rolling_back sample_id "alice" "t2")
    ∷ (sample_objective, preparing sample_prepare "t3")
    ∷ (sample_objective, preflighting sample_id sample_workspace sample_node "bob" "t4")
    ∷ (sample_objective, claiming sample_id (sample_claim "thread-b") "t5")
    ∷ (sample_objective, claiming sample_id (sample_claim "thread-c") "t6")
    ∷ (sample_objective, rolling_back sample_id "alice" "t7")
    ∷ (sample_objective, verifying sample_id "thread-b" sample_workspace sample_node "bob" "t8")
    ∷ []

sample_calls_claim :
    (run_calls sample_uuid sample_digests sample_metadata sample_calls).owner_claim
    ≡ held (record {
      generation = 1;
      owner_id = "owner-b";
      node_id = "node-b";
      executor_handle = "thread-b";
    })
unfolding owner_code
sample_calls_claim = refl

run_calls-IsConsistent_example :
    IsConsistent (run_calls sample_uuid sample_digests sample_metadata sample_calls)
run_calls-IsConsistent_example =
    run_calls-IsConsistent sample_uuid sample_digests sample_metadata sample_calls refl

claim-claim_example :
    claim (issue_of claimed) sample_id (sample_claim "thread-c") "t4" ≡ err claimed_by_another
unfolding owner_code
claim-claim_example =
    claim-claim (issue_of preflighted) sample_id (sample_claim "thread-b") (sample_claim "thread-c")
      "t3" "t4" claimed sample_objective "thread-b" "thread-c" refl refl refl

rollback-claim_example :
    rollback (issue_of claimed) sample_id "alice" "t4" ≡ err too_late_to_roll_back
unfolding owner_code
rollback-claim_example =
    rollback-claim (issue_of preflighted) sample_id (sample_claim "thread-b") "t3" "t4" "alice"
      claimed sample_objective refl

claimed_changes : claimed ≢ preflighted
unfolding owner_code
claimed_changes same = cc

claim-Confirms_example : Confirms preflighted claimed (sample_claim "thread-b")
unfolding owner_code
claim-Confirms_example =
    claim-Confirms (issue_of preflighted) sample_id (sample_claim "thread-b") "t3" claimed refl
      claimed_changes

abbrev sample_evidence : Preflight
sample_evidence = record {
  workspace = record {
    checked_at = "2026-01-01T00:00:00Z";
    workspace_fingerprint = hash_text;
    environment_fingerprint = hash_text;
    repository_fingerprint = hash_text;
  };
  node = record { node_checked_at = "2026-01-01T00:00:00Z"; control_commit = commit_text };
}

abbrev sample_source : Claim
sample_source = record {
  generation = 0;
  owner_id = "owner-a";
  node_id = "node-a";
  executor_handle = "thread-a";
}

abbrev sample_receipt : Receipt
sample_receipt = record {
  migration_id = sample_id;
  generation = 1;
  state = source_checkpointed;
  bead_id = "bd-12";
  objective_fingerprint = "bd-12";
  instruction = record { revision = pos 1; fingerprint = "Go on"; summary = "Go on" };
  source_claim = sample_source;
  source_checkpoint = record {
    recorded_at = "t1";
    write_set = "scripts/a.py" ∷ "scripts/b.py" ∷ [];
    remaining = "tests" ∷ [];
    next_action = "run the tests";
    git_recovery =
        record { repository = "me/repo"; ref = "main"; commit = commit_text; tree = commit_text }
        ∷ [];
  };
  target = record {
    node_id = "node-b";
    profile_id = "profile-b";
    owner_id = "owner-b";
    executor_handle = none;
    preflight = none;
  };
  transitions = record { state = source_checkpointed; recorded_at = "t1"; actor = "alice" } ∷ [];
}

run_calls_completes_example : Taken sample_receipt "thread-b" (
    run_calls sample_uuid sample_digests prepared (
      remaining_calls sample_objective sample_receipt "thread-b" sample_workspace sample_node "bob"
        "t2" "t3" "t4" "t5"))
unfolding owner_code
run_calls_completes_example =
    run_calls_completes sample_uuid sample_digests sample_objective sample_prepare "t1"
      sample_metadata prepared sample_receipt sample_workspace sample_node sample_evidence "bob"
      "bob" "thread-b" "t2" "t3" "t4" "t5" refl refl refl refl refl

run_calls-Advances_example :
    (c' : Claim) × ((run_calls sample_uuid sample_digests prepared sample_calls).owner_claim
      ≡ held c')
    × ((c' ≡ sample_source) ⊎ (0 < c'.generation))
unfolding owner_code
run_calls-Advances_example =
    run_calls-Advances sample_uuid sample_digests prepared sample_calls sample_source refl
