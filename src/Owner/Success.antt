-- ===== src/Owner/Success.antt =====
-- A migration that meets no obstacle, from `prepare` to `release_source`.
use mathlib.Core.Option.{some-injective}
use opl_flow.Base.{
  String, Bool, true, false, ◌≡◌, refl, some, List, [], ◌∷◌, arith, eq_iff, ok, ◌++◌,
}
use opl_flow.Base.Int.{ℤ, pos, negsuc, eqb_ℤ}
use opl_flow.Json.{Value}
use opl_flow.Owner.Data.{
  MigrationState, source_checkpointed, target_preflighted, target_acknowledged, target_verified,
  completed, owner_identity, held, Preflight, Receipt, is_migration_state, transition, Metadata,
  Objective, Digests,
}
use opl_flow.Owner.Steps.{
  claim, claim_first, verify_target, verify_first, release_source, complete_first, confirm_evidence,
}
use opl_flow.Owner.Prepare.{
  PrepareRequest, prepare, preflight, preflight_first, named_receipt, fresh_evidence, holds_claim,
  same_claim,
}
use opl_flow.Owner.Invariant.{target_claim}
use opl_flow.Owner.Effects.{prepare-eq-ok}
use opl_flow.Owner.Calls.{Call, preflighting, claiming, verifying, releasing, respond, run_calls}

-- the receipt after one more transition
abbrev moved : Receipt → MigrationState → String → String → Receipt
moved r s actor now = record r {
  state = s;
  transitions = r.transitions ++ record { state = s; recorded_at = now; actor = actor } ∷ [];
}

eqb_ℤ-refl : (z : ℤ) → eqb_ℤ z z ≡ true
eqb_ℤ-refl (pos n) = ground arith
eqb_ℤ-refl (negsuc n) = ground arith

transition-ok :
    (r : Receipt) (s : MigrationState) (actor name now : String)
    → is_migration_state s ≡ true
    → owner_identity actor ≡ ok name
    → transition r s actor now ≡ ok (moved r s name now)
unfolding transition
transition-ok r s actor name now good named = ground arith

confirm_evidence-fresh :
    (r r' : Receipt) (p : Preflight) (w n : Value)
    → r'.target.profile_id ≡ r.target.profile_id
    → r'.target.node_id ≡ r.target.node_id
    → r'.bead_id ≡ r.bead_id
    → fresh_evidence r w n ≡ ok p
    → confirm_evidence r' (some p) w n ≡ ok p
unfolding fresh_evidence confirm_evidence
confirm_evidence-fresh r r' p w n e e' e'' h = ground (
  arith,
  eq_iff p.workspace.workspace_fingerprint p.workspace.workspace_fingerprint,
  eq_iff p.workspace.environment_fingerprint p.workspace.environment_fingerprint,
  eq_iff p.workspace.repository_fingerprint p.workspace.repository_fingerprint,
  eq_iff p.node.control_commit p.node.control_commit,
)

module _ (m : Metadata) (r : Receipt) (stands : m.owner_migration ≡ some r) (w n : Value)
    (p : Preflight) (actor name : String) (named : owner_identity actor ≡ ok name)
    (now : String) where
  abbrev preflighted : Receipt
  preflighted =
      moved (record r { target = record r.target { preflight = some p } }) target_preflighted name
        now

  preflight-ok :
      (digests : Digests) (o : Objective)
      → r.state ≡ source_checkpointed
      → digests.of_objective o ≡ r.objective_fingerprint
      → fresh_evidence r w n ≡ ok p
      → preflight digests (record { objective = o; metadata = m }) r.migration_id w n actor now
        ≡ ok (record m { owner_migration = some preflighted })
  unfolding preflight preflight_first named_receipt
  preflight-ok digests o state same fresh =
      let checked = record r { target = record r.target { preflight = some p } } in
      ground (
        arith,
        stands,
        eq_iff r.migration_id r.migration_id,
        eq_iff (digests.of_objective o) r.objective_fingerprint,
        transition-ok checked target_preflighted actor name now refl named,
      )

  abbrev acknowledged : String → Receipt
  acknowledged handle =
      moved
        (record r {
          target = record r.target { preflight = some p; executor_handle = some handle };
        })
        target_acknowledged name now

  abbrev owned : String → Metadata
  owned handle = record m {
    owner_migration = some (acknowledged handle);
    owner_claim = held (target_claim r handle);
    last_execution_thread = some r.source_claim.executor_handle;
    execution_owner = some r.target.owner_id;
    execution_thread = some handle;
    execution_node = some r.target.node_id;
  }

  claim-ok :
      (o : Objective) (given handle : String)
      → r.state ≡ target_preflighted
      → m.owner_claim ≡ held r.source_claim
      → owner_identity given ≡ ok handle
      → confirm_evidence r r.target.preflight w n ≡ ok p
      → claim
          (record { objective = o; metadata = m })
          r.migration_id
          (record {
            target_executor_handle = given;
            expected_instruction_revision = r.instruction.revision;
            expected_instruction_fingerprint = r.instruction.fingerprint;
            workspace_readback = w;
            node_readback = n;
            actor = actor;
          })
          now
        ≡ ok (owned handle)
  unfolding claim claim_first named_receipt holds_claim same_claim
  claim-ok o given handle state source mine confirmed =
      let checked = record r {
        target = record r.target { preflight = some p; executor_handle = some handle };
      } in
      let c = r.source_claim in
      ground (
        arith,
        stands,
        eq_iff r.migration_id r.migration_id,
        eq_iff r.instruction.fingerprint r.instruction.fingerprint,
        eqb_ℤ-refl r.instruction.revision,
        eq_iff c.owner_id c.owner_id,
        eq_iff c.node_id c.node_id,
        eq_iff c.executor_handle c.executor_handle,
        transition-ok checked target_acknowledged actor name now refl named,
      )

  abbrev verified : Receipt
  verified =
      moved (record r { target = record r.target { preflight = some p } }) target_verified name now

  verify_target-ok :
      (o : Objective) (handle : String)
      → r.state ≡ target_acknowledged
      → m.owner_claim ≡ held (target_claim r handle)
      → r.target.executor_handle ≡ some handle
      → m.execution_owner ≡ some r.target.owner_id
      → m.execution_thread ≡ some handle
      → confirm_evidence r r.target.preflight w n ≡ ok p
      → verify_target (record { objective = o; metadata = m }) r.migration_id handle w n actor now
        ≡ ok (record m { owner_migration = some verified })
  unfolding verify_target verify_first named_receipt holds_claim same_claim
  verify_target-ok o handle state source mine owner thread confirmed =
      let checked = record r { target = record r.target { preflight = some p } } in
      ground (
        arith,
        stands,
        eq_iff r.migration_id r.migration_id,
        eq_iff handle handle,
        eq_iff r.target.owner_id r.target.owner_id,
        eq_iff r.target.node_id r.target.node_id,
        transition-ok checked target_verified actor name now refl named,
      )

  release_source-ok :
      (o : Objective)
      → r.state ≡ target_verified
      → release_source (record { objective = o; metadata = m }) r.migration_id actor now
        ≡ ok (record m {
          owner_migration = some (moved r completed name now);
          owner_mutation_frozen = some false;
        })
  unfolding release_source complete_first named_receipt
  release_source-ok o state = ground (
    arith,
    stands,
    eq_iff r.migration_id r.migration_id,
    transition-ok r completed actor name now refl named,
  )

-- the four calls that follow `prepare`, by one actor and with the same readbacks each time
abbrev pub remaining_calls :
    Objective
    → Receipt
    → String
    → Value
    → Value
    → String
    → String
    → String
    → String
    → String
    → List (Objective × Call)
remaining_calls o r handle w n actor now₁ now₂ now₃ now₄ =
    (o, preflighting r.migration_id w n actor now₁)
    ∷ (
      o,
      claiming r.migration_id
          (record {
            target_executor_handle = handle;
            expected_instruction_revision = r.instruction.revision;
            expected_instruction_fingerprint = r.instruction.fingerprint;
            workspace_readback = w;
            node_readback = n;
            actor = actor;
          })
          now₂,
    )
    ∷ (o, verifying r.migration_id handle w n actor now₃)
    ∷ (o, releasing r.migration_id actor now₄)
    ∷ []

-- the executor has the task, and its migration is over
pub record Taken (r : Receipt) (handle : String) (m : Metadata) : Type 0 where
  pub receipt : Receipt
  pub stands : m.owner_migration ≡ some receipt
  pub done : receipt.state ≡ completed
  pub owner : m.owner_claim ≡ held (target_claim r handle)
  pub thread : m.execution_thread ≡ some handle
  pub released : m.owner_mutation_frozen ≡ some false

-- After a prepared migration, a preflight, a claim, a verification and a release all succeed and
-- give the task to the executor, if both readbacks are accepted and keep their fingerprints, the
-- objective is not edited, the claim names the receipt's instruction, the actor is an identity,
-- and the executor's handle is one that has no blanks at its ends.
pub run_calls_completes :
    (is_uuid : String → Bool) (digests : Digests) (o : Objective) (q : PrepareRequest)
    (now : String) (m₀ m : Metadata) (r : Receipt) (w n : Value) (p : Preflight)
    (actor name handle : String) (now₁ now₂ now₃ now₄ : String)
    → prepare is_uuid digests (record { objective = o; metadata = m₀ }) q now ≡ ok m
    → m.owner_migration ≡ some r
    → fresh_evidence r w n ≡ ok p
    → owner_identity actor ≡ ok name
    → owner_identity handle ≡ ok handle
    → Taken r handle
        (run_calls is_uuid digests m (remaining_calls o r handle w n actor now₁ now₂ now₃ now₄))
unfolding run_calls respond
run_calls_completes is_uuid digests o q now m₀ m r w n p actor name handle now₁ now₂ now₃ now₄ h
      stands fresh named good =
    let (_, c, r', _, state, claims, _, prints, _, after) =
      prepare-eq-ok is_uuid digests (record { objective = o; metadata = m₀ }) q now m h in
    let same : r' ≡ r = some-injective r' r (ground (arith, after, stands)) in
    let r₁ = preflighted m r stands w n p actor name named now₁ in
    let m₁ = record m { owner_migration = some r₁ } in
    let r₂ = acknowledged m₁ r₁ refl w n p actor name named now₂ handle in
    let m₂ = owned m₁ r₁ refl w n p actor name named now₂ handle in
    let r₃ = verified m₂ r₂ refl w n p actor name named now₃ in
    let m₃ = record m₂ { owner_migration = some r₃ } in
    let first =
      preflight-ok m r stands w n p actor name named now₁ digests o (ground (arith, same, state))
        (ground (arith, same, prints)) fresh in
    let second =
      claim-ok m₁ r₁ refl w n p actor name named now₂ o handle handle refl
        (ground (arith, same, claims, after)) good
        (confirm_evidence-fresh r r₁ p w n refl refl refl fresh) in
    let third =
      verify_target-ok m₂ r₂ refl w n p actor name named now₃ o handle refl refl refl refl refl
        (confirm_evidence-fresh r r₂ p w n refl refl refl fresh) in
    let fourth = release_source-ok m₃ r₃ refl w n p actor name named now₄ o refl in
    rw first (
      rw second (
        rw third (
          rw fourth (record {
            receipt = moved r₃ completed name now₄;
            stands = refl;
            done = refl;
            owner = refl;
            thread = refl;
            released = refl;
          }))))
