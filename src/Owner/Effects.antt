-- ===== src/Owner/Effects.antt =====
-- What each transition that succeeds has tested, and what it has changed.
use opl_flow.Base.{
  ap, inl, inr, ◌+◌, String, Bool, true, false, ◌≡◌, Option, none, some, List, arith, eq_iff, ok,
  Result-cases,
}
use opl_flow.Json.{Value}
use opl_flow.Owner.Data.{
  MigrationState, source_checkpointed, target_preflighted, target_acknowledged, target_verified,
  completed, rolled_back, Claim, ClaimEntry, held, Preflight, Transition, Receipt, Metadata, Issue,
  Digests, transition,
}
use opl_flow.Owner.States.{may_roll_back}
use opl_flow.Owner.Steps.{
  ClaimRequest, claim_first, verify_first, complete_first, rollback_first, confirm_evidence,
}
use opl_flow.Owner.Prepare.{
  PrepareRequest, prepare, preflight_first, draft_receipt, is_text, is_active, last_generation,
  claim_for, fresh_evidence, holds_claim, same_claim, current_claim,
}

pub transition-eq :
    (r r' : Receipt) (s : MigrationState) (actor now : String)
    → transition r s actor now ≡ ok r'
    → r' ≡ record r { state = s; transitions = r'.transitions }
unfolding transition
transition-eq r r' s actor now h = ground arith

pub same_claim-eq : (a b : Claim) → same_claim a b ≡ true → a ≡ b
unfolding same_claim
same_claim-eq a b h = ground (
  arith,
  eq_iff a.owner_id b.owner_id,
  eq_iff a.node_id b.node_id,
  eq_iff a.executor_handle b.executor_handle,
)

pub holds_claim-eq : (e : ClaimEntry) (c : Claim) → holds_claim e c ≡ true → e ≡ held c
unfolding holds_claim
holds_claim-eq ClaimEntry.missing c h = cc
holds_claim-eq ClaimEntry.malformed c h = cc
holds_claim-eq (held d) c h = ap held (same_claim-eq d c h)

pub is_text-eq : (o : Option String) (s : String) → is_text o s ≡ true → o ≡ some s
is_text-eq none s h = cc
is_text-eq (some t) s h = ap some ((eq_iff t s).0 h)

module _ (m m' : Metadata) (r : Receipt) (actor now : String) where
  pub complete_first-eq-ok :
      complete_first m r actor now ≡ ok m'
      → (r.state ≡ target_verified)
        × (ts : List Transition) × (m' ≡ record m {
          owner_migration = some (record r { state = completed; transitions = ts });
          owner_mutation_frozen = some false;
        })
  unfolding complete_first
  complete_first-eq-ok h = elim (Result-cases (transition r completed actor now)) [
    | inl (r', e) ↦
        (ground arith, r'.transitions, ground (arith, e, transition-eq r r' completed actor now e))
    | inr (x, e) ↦ absurd (ground (arith, e))
  ]

  pub rollback_first-eq-ok :
      rollback_first m r actor now ≡ ok m'
      → (may_roll_back r.state ≡ true)
        × (m.owner_claim ≡ held r.source_claim)
        × (ts : List Transition) × (m' ≡ record m {
          owner_migration = some (record r { state = rolled_back; transitions = ts });
          owner_mutation_frozen = some false;
        })
  unfolding rollback_first
  rollback_first-eq-ok h = elim (Result-cases (transition r rolled_back actor now)) [
    | inl (r', e) ↦ (
      ground arith,
      holds_claim-eq m.owner_claim r.source_claim (ground arith),
      r'.transitions,
      ground (arith, e, transition-eq r r' rolled_back actor now e),
    )
    | inr (x, e) ↦ absurd (ground (arith, e))
  ]

  pub claim_first-eq-ok :
      (handle : String) (q : ClaimRequest)
      → claim_first m r handle q now ≡ ok m'
      → (r.state ≡ target_preflighted)
        × (m.owner_claim ≡ held r.source_claim)
        × (p : Preflight) × (ts : List Transition) × (confirm_evidence r r.target.preflight
              q.workspace_readback q.node_readback
            ≡ ok p)
        × (m' ≡ record m {
          owner_migration = some (record r {
            state = target_acknowledged;
            transitions = ts;
            target = record r.target { preflight = some p; executor_handle = some handle };
          });
          owner_claim = held (record {
            generation = r.source_claim.generation + 1;
            owner_id = r.target.owner_id;
            node_id = r.target.node_id;
            executor_handle = handle;
          });
          last_execution_thread = some r.source_claim.executor_handle;
          execution_owner = some r.target.owner_id;
          execution_thread = some handle;
          execution_node = some r.target.node_id;
        })
  unfolding claim_first
  claim_first-eq-ok handle q h =
      elim (Result-cases
        (confirm_evidence r r.target.preflight q.workspace_readback q.node_readback)) [
          | inr (x, e) ↦ absurd (ground (arith, e))
          | inl (p, confirmed) ↦
              let claimed = record r {
                target = record r.target { preflight = some p; executor_handle = some handle };
              } in
              elim (Result-cases (transition claimed target_acknowledged q.actor now)) [
                | inr (x, e) ↦ absurd (ground (arith, confirmed, e))
                | inl (r', e) ↦ (
                  ground arith,
                  holds_claim-eq m.owner_claim r.source_claim (ground arith),
                  p,
                  r'.transitions,
                  confirmed,
                  ground (
                    arith,
                    confirmed,
                    e,
                    transition-eq claimed r' target_acknowledged q.actor now e,
                  ),
                )
              ]
        ]

  pub verify_first-eq-ok :
      (handle : String) (w n : Value)
      → verify_first m r handle w n actor now ≡ ok m'
      → (r.state ≡ target_acknowledged)
        × (m.owner_claim
            ≡ held (record {
              generation = r.source_claim.generation + 1;
              owner_id = r.target.owner_id;
              node_id = r.target.node_id;
              executor_handle = handle;
            }))
        × (r.target.executor_handle ≡ some handle)
        × (p : Preflight) × (ts : List Transition) × (confirm_evidence r r.target.preflight w n
            ≡ ok p)
        × (m' ≡ record m {
          owner_migration = some (record r {
            state = target_verified;
            transitions = ts;
            target = record r.target { preflight = some p };
          });
        })
  unfolding verify_first
  verify_first-eq-ok handle w n h =
      elim (Result-cases (confirm_evidence r r.target.preflight w n)) [
        | inr (x, e) ↦ absurd (ground (arith, e))
        | inl (p, confirmed) ↦
            let verified = record r { target = record r.target { preflight = some p } } in
            elim (Result-cases (transition verified target_verified actor now)) [
              | inr (x, e) ↦ absurd (ground (arith, confirmed, e))
              | inl (r', e) ↦ (
                ground arith,
                holds_claim-eq m.owner_claim _ (ground arith),
                is_text-eq r.target.executor_handle handle (ground arith),
                p,
                r'.transitions,
                confirmed,
                ground (arith, confirmed, e, transition-eq verified r' target_verified actor now e),
              )
            ]
      ]

module _ (digests : Digests) (issue : Issue) (r : Receipt) (m' : Metadata)
    (actor now : String) where
  pub preflight_first-eq-ok :
      (w n : Value)
      → preflight_first digests issue r w n actor now ≡ ok m'
      → (r.state ≡ source_checkpointed)
        × (digests.of_objective issue.objective ≡ r.objective_fingerprint)
        × (p : Preflight) × (ts : List Transition) × (fresh_evidence r w n ≡ ok p)
        × (m' ≡ record issue.metadata {
          owner_migration = some (record r {
            state = target_preflighted;
            transitions = ts;
            target = record r.target { preflight = some p };
          });
        })
  unfolding preflight_first
  preflight_first-eq-ok w n h = elim (Result-cases (fresh_evidence r w n)) [
    | inr (x, e) ↦ absurd (ground (arith, e))
    | inl (p, fresh) ↦
        let checked = record r { target = record r.target { preflight = some p } } in
        elim (Result-cases (transition checked target_preflighted actor now)) [
          | inr (x, e) ↦ absurd (ground (arith, fresh, e))
          | inl (r', e) ↦ (
            ground arith,
            ground (arith, eq_iff (digests.of_objective issue.objective) r.objective_fingerprint),
            p,
            r'.transitions,
            fresh,
            ground (arith, fresh, e, transition-eq checked r' target_preflighted actor now e),
          )
        ]
  ]

-- A claim that is already there is the one that `prepare` records.
pub current_claim-held :
    (m : Metadata) (owner node handle : String) (c d : Claim)
    → m.owner_claim ≡ held c
    → current_claim m owner node handle ≡ ok d
    → d ≡ c
unfolding current_claim claim_for
current_claim-held m owner node handle c d h e = ground arith

module _ (is_uuid : String → Bool) (digests : Digests) (issue : Issue) (q : PrepareRequest)
    (now : String) (m' : Metadata) where
  draft_receipt-fields :
      (c : Claim) (d : Receipt)
      → draft_receipt is_uuid digests issue q c now ≡ ok d
      → (d.source_claim ≡ c)
        × (d.target.executor_handle ≡ none)
        × (d.objective_fingerprint ≡ digests.of_objective issue.objective)
        × (d.generation ≡ last_generation issue.metadata.owner_migration + 1)
  unfolding draft_receipt
  draft_receipt-fields c d h = ground arith

  pub prepare-eq-ok :
      prepare is_uuid digests issue q now ≡ ok m'
      → (is_active issue.metadata.owner_migration ≡ false)
        × (c : Claim) × (r : Receipt) × (current_claim issue.metadata q.source_owner_id
              q.source_node_id q.source_executor_handle
            ≡ ok c)
        × (r.state ≡ source_checkpointed)
        × (r.source_claim ≡ c)
        × (r.target.executor_handle ≡ none)
        × (r.objective_fingerprint ≡ digests.of_objective issue.objective)
        × (r.generation ≡ last_generation issue.metadata.owner_migration + 1)
        × (m' ≡ record issue.metadata {
          owner_claim = held c;
          owner_migration = some r;
          owner_mutation_frozen = some true;
        })
  unfolding prepare
  prepare-eq-ok h =
      elim (Result-cases (
        current_claim issue.metadata q.source_owner_id q.source_node_id q.source_executor_handle)) [
          | inr (x, e) ↦ absurd (ground (arith, e))
          | inl (c, mine) ↦ elim (Result-cases (draft_receipt is_uuid digests issue q c now)) [
            | inr (x, e) ↦ absurd (ground (arith, mine, e))
            | inl (d, drafted) ↦
                elim (Result-cases (transition d source_checkpointed q.actor now)) [
                  | inr (x, e) ↦ absurd (ground (arith, mine, drafted, e))
                  | inl (r, e) ↦
                      let at = transition-eq d r source_checkpointed q.actor now e in
                      let (claims, plain, prints, counts) = draft_receipt-fields c d drafted in
                      (
                        ground arith,
                        c,
                        r,
                        mine,
                        ground (arith, at),
                        ground (arith, at, claims),
                        ground (arith, at, plain),
                        ground (arith, at, prints),
                        ground (arith, at, counts),
                        ground (arith, mine, drafted, e),
                      )
                ]
          ]
        ]
