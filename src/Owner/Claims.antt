-- ===== src/Owner/Claims.antt =====
-- What a claim of the target has tested, and what it leaves to later calls.
use opl_flow.Base.{
  ap, String, true, false, ◌≡◌, ◌≢◌, inl, inr, refl, some, ◌==◌, arith, eq_iff, if◌then◌else◌, ok,
  err, Result-cases, Option-cases, Bool-cases,
}
use opl_flow.Base.Int.{eqb_ℤ}
use opl_flow.Execution.{WorkspaceEvidence, NodeEvidence}
use opl_flow.Owner.Data.{
  claimed_by_another, too_late_to_roll_back, target_acknowledged, owner_identity, held, Preflight,
  Receipt, Metadata, Objective, Issue,
}
use opl_flow.Owner.States.{is_claimed, is_rolled_back, may_roll_back}
use opl_flow.Owner.Steps.{
  ClaimRequest, claim, claim_first, rollback, rollback_first, confirm_evidence,
}
use opl_flow.Owner.Prepare.{named_receipt, validate_workspace_preflight, validate_node_admission}
use opl_flow.Owner.Effects.{claim_first-eq-ok, is_text-eq, holds_claim-eq}
use opl_flow.Owner.Invariant.{target_claim}
use opl_flow.Owner.Cases.{claim-cases}

-- what a claim of the migration `id` by `handle` leaves in the metadata
pub record Claimed (m : Metadata) (id handle : String) : Type 0 where
  pub receipt : Receipt
  pub stands : m.owner_migration ≡ some receipt
  pub named : (receipt.migration_id == id) ≡ true
  pub past : is_claimed receipt.state ≡ true
  pub taken : receipt.target.executor_handle ≡ some handle

module _ (issue : Issue) (id : String) (q : ClaimRequest) (now : String) (m' : Metadata) where
  pub claim-Claimed :
      claim issue id q now ≡ ok m'
      → (handle : String) × (owner_identity q.target_executor_handle ≡ ok handle)
        × Claimed m' id handle
  unfolding claim named_receipt
  claim-Claimed h = elim (Option-cases issue.metadata.owner_migration) [
    | inl none_there ↦ absurd (ground (arith, none_there))
    | inr (r, e) ↦ elim (Bool-cases (r.migration_id == id)) [
      | inr foreign ↦ absurd (ground (arith, e, foreign))
      | inl named ↦ elim (Result-cases (owner_identity q.target_executor_handle)) [
        | inr (x, bad) ↦ absurd (ground (arith, e, named, bad))
        | inl (handle, good) ↦ elim (Bool-cases (is_claimed r.state)) [
          | inl past ↦ (
            handle,
            good,
            record {
              receipt = r;
              stands = ground (arith, e, named, good, past);
              named = named;
              past = past;
              taken =
                  is_text-eq r.target.executor_handle handle (ground (arith, e, named, good, past));
            },
          )
          | inr fresh ↦
              let first : claim_first issue.metadata r handle q now ≡ ok m' =
                ground (arith, e, named, good, fresh) in
              let (_, _, p, ts, _, after) =
                claim_first-eq-ok issue.metadata m' r "" now handle q first in
              (
                handle,
                good,
                record {
                  receipt = record r {
                    state = target_acknowledged;
                    transitions = ts;
                    target = record r.target { preflight = some p; executor_handle = some handle };
                  };
                  stands = ground (arith, after);
                  named = named;
                  past = refl;
                  taken = refl;
                },
              )
        ]
      ]
    ]
  ]

-- A claimed migration answers a claim by its executor alone.
claim_again :
    (m : Metadata) (id handle other : String) (o : Objective) (q : ClaimRequest) (now : String)
    → Claimed m id handle
    → owner_identity q.target_executor_handle ≡ ok other
    → claim (record { objective = o; metadata = m }) id q now
      ≡ (if handle == other then ok m else err claimed_by_another)
unfolding claim named_receipt
claim_again m id handle other o q now c good =
    ground (arith, c.stands, c.named, c.past, c.taken, good)

-- After a claim by one executor has succeeded, a further claim of that migration by the same
-- executor changes nothing, and one by any other executor is refused, whatever has become of the
-- issue's objective and whatever the claim brings with it.
pub claim-claim :
    (issue : Issue) (id : String) (q q' : ClaimRequest) (now now' : String) (m' : Metadata)
    (o : Objective) (handle handle' : String)
    → claim issue id q now ≡ ok m'
    → owner_identity q.target_executor_handle ≡ ok handle
    → owner_identity q'.target_executor_handle ≡ ok handle'
    → claim (record { objective = o; metadata = m' }) id q' now'
      ≡ (if handle == handle' then ok m' else err claimed_by_another)
claim-claim issue id q q' now now' m' o handle handle' h mine yours =
    let (first, good, c) = claim-Claimed issue id q now m' h in
    claim_again m' id handle handle' o q' now'
      (record {
        receipt = c.receipt;
        stands = c.stands;
        named = c.named;
        past = c.past;
        taken = ground (arith, c.taken, good);
      })
      yours

claimed-kept :
    (r : Receipt)
    → is_claimed r.state ≡ true
    → (may_roll_back r.state ≡ false) × (is_rolled_back r.state ≡ false)
claimed-kept r past = (ground arith, ground arith)

-- A migration that an executor of the target has claimed cannot be rolled back.
pub rollback-claim :
    (issue : Issue) (id : String) (q : ClaimRequest) (now now' actor : String) (m' : Metadata)
    (o : Objective)
    → claim issue id q now ≡ ok m'
    → rollback (record { objective = o; metadata = m' }) id actor now' ≡ err too_late_to_roll_back
unfolding rollback named_receipt rollback_first
rollback-claim issue id q now now' actor m' o h =
    let (_, _, c) = claim-Claimed issue id q now m' h in
    let (kept, fresh) = claimed-kept c.receipt c.past in
    ground (arith, c.stands, c.named, kept, fresh)

-- what is tested before the owner of a task changes, and the new owner
pub record Confirms (m m' : Metadata) (q : ClaimRequest) : Type 0 where
  pub receipt : Receipt
  pub stands : m.owner_migration ≡ some receipt
  pub revision : eqb_ℤ receipt.instruction.revision q.expected_instruction_revision ≡ true
  pub fingerprint : receipt.instruction.fingerprint ≡ q.expected_instruction_fingerprint
  pub source : m.owner_claim ≡ held receipt.source_claim
  pub before : Preflight
  pub preflighted : receipt.target.preflight ≡ some before
  pub workspace : WorkspaceEvidence
  pub workspace_read :
      validate_workspace_preflight q.workspace_readback receipt.target.profile_id
        receipt.target.node_id
      ≡ ok workspace
  pub node : NodeEvidence
  pub node_read :
      validate_node_admission q.node_readback receipt.target.node_id receipt.bead_id ≡ ok node
  pub same_files : workspace.workspace_fingerprint ≡ before.workspace.workspace_fingerprint
  pub same_environment :
      workspace.environment_fingerprint ≡ before.workspace.environment_fingerprint
  pub same_repository : workspace.repository_fingerprint ≡ before.workspace.repository_fingerprint
  pub same_commit : node.control_commit ≡ before.node.control_commit
  pub handle : String
  pub identified : owner_identity q.target_executor_handle ≡ ok handle
  pub owner : m'.owner_claim ≡ held (target_claim receipt handle)
  pub thread : m'.execution_thread ≡ some handle

claim_first-owner :
    (m m' : Metadata) (r : Receipt) (handle : String) (q : ClaimRequest) (now : String)
    → claim_first m r handle q now ≡ ok m'
    → (m'.owner_claim ≡ held (target_claim r handle)) × (m'.execution_thread ≡ some handle)
claim_first-owner m m' r handle q now h =
    let (_, _, _, _, _, after) = claim_first-eq-ok m m' r "" now handle q h in
    (ap (λ x. x.owner_claim) after, ap (λ x. x.execution_thread) after)

claim_first-Confirms :
    (m m' : Metadata) (r : Receipt) (handle : String) (q : ClaimRequest) (now : String)
    → m.owner_migration ≡ some r
    → owner_identity q.target_executor_handle ≡ ok handle
    → claim_first m r handle q now ≡ ok m'
    → Confirms m m' q
unfolding claim_first confirm_evidence
claim_first-Confirms m m' r handle q now e good h =
    let taken = claim_first-owner m m' r handle q now h in
    elim (Option-cases r.target.preflight) [
      | inl none_there ↦ absurd (ground (arith, none_there))
      | inr (old, seen) ↦
          elim (Result-cases (
            validate_workspace_preflight q.workspace_readback r.target.profile_id
              r.target.node_id)) [
                | inr (x, bad) ↦ absurd (ground (arith, seen, bad))
                | inl (w, read) ↦
                    elim (Result-cases
                      (validate_node_admission q.node_readback r.target.node_id r.bead_id)) [
                        | inr (x, bad) ↦ absurd (ground (arith, seen, read, bad))
                        | inl (n, node_read) ↦ record {
                          receipt = r;
                          stands = e;
                          revision = ground arith;
                          fingerprint = ground (
                            arith,
                            eq_iff r.instruction.fingerprint q.expected_instruction_fingerprint,
                          );
                          source = holds_claim-eq m.owner_claim r.source_claim (ground arith);
                          before = old;
                          preflighted = seen;
                          workspace = w;
                          workspace_read = read;
                          node = n;
                          node_read = node_read;
                          same_files = ground (
                            arith,
                            seen,
                            read,
                            node_read,
                            eq_iff w.workspace_fingerprint old.workspace.workspace_fingerprint,
                          );
                          same_environment = ground (
                            arith,
                            seen,
                            read,
                            node_read,
                            eq_iff w.environment_fingerprint old.workspace.environment_fingerprint,
                          );
                          same_repository = ground (
                            arith,
                            seen,
                            read,
                            node_read,
                            eq_iff w.repository_fingerprint old.workspace.repository_fingerprint,
                          );
                          same_commit = ground (
                            arith,
                            seen,
                            read,
                            node_read,
                            eq_iff n.control_commit old.node.control_commit,
                          );
                          handle = handle;
                          identified = good;
                          owner = taken.0;
                          thread = taken.1;
                        }
                      ]
              ]
    ]

-- A claim that changes the metadata makes the executor that it names the owner, one generation
-- above the source's claim. It has held the instruction, the owner claim and fresh readbacks
-- of the target against the receipt: the instruction is the expected one, the source still owns
-- the task, and the workspace, its environment, its repository and the control revision are those
-- of the preflight.
pub claim-Confirms :
    (issue : Issue) (id : String) (q : ClaimRequest) (now : String) (m' : Metadata)
    → claim issue id q now ≡ ok m'
    → m' ≢ issue.metadata
    → Confirms issue.metadata m' q
claim-Confirms issue id q now m' h new = elim (claim-cases issue m' id now q h) [
  | inl same ↦ absurd (new same)
  | inr (r, e, (handle, good, first)) ↦
      claim_first-Confirms issue.metadata m' r handle q now e good first
]
