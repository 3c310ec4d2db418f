-- ===== src/Owner/Cases.antt =====
-- Repeated calls of a transition and first ones.
use opl_flow.Base.{
  String, ◌≡◌, ◌⊎◌, inl, inr, some, arith, ok, Result-cases, Option-cases, Bool-cases,
}
use opl_flow.Json.{Value}
use opl_flow.Owner.Data.{owner_identity, Receipt, Metadata, Issue, Digests}
use opl_flow.Owner.States.{
  is_completed, is_rolled_back, is_verified, is_target_preflighted, is_claimed,
}
use opl_flow.Owner.Steps.{
  ClaimRequest, claim, claim_first, verify_target, verify_first, release_source, complete_first,
  rollback, rollback_first,
}
use opl_flow.Owner.Prepare.{preflight, preflight_first, named_receipt}

-- A call either leaves the metadata as they are, or makes its step on the receipt there.
abbrev pub StepsFrom : (Metadata → Receipt → Type 0) → Metadata → Metadata → Type 0
StepsFrom P m m' = (m' ≡ m) ⊎ ((r : Receipt) × (m.owner_migration ≡ some r) × P m' r)

module _ (issue : Issue) (m' : Metadata) (id : String) (now : String) where
  pub release_source-cases :
      (actor : String)
      → release_source issue id actor now ≡ ok m'
      → StepsFrom (λ x r. complete_first issue.metadata r actor now ≡ ok x) issue.metadata m'
  unfolding release_source named_receipt
  release_source-cases actor h = elim (Option-cases issue.metadata.owner_migration) [
    | inl none_there ↦ absurd (ground (arith, none_there))
    | inr (r, e) ↦ elim (Bool-cases (is_completed r.state)) [
      | inl again ↦ inl (ground (arith, e, again))
      | inr first ↦ inr (r, e, ground (arith, e, first))
    ]
  ]

  pub rollback-cases :
      (actor : String)
      → rollback issue id actor now ≡ ok m'
      → StepsFrom (λ x r. rollback_first issue.metadata r actor now ≡ ok x) issue.metadata m'
  unfolding rollback named_receipt
  rollback-cases actor h = elim (Option-cases issue.metadata.owner_migration) [
    | inl none_there ↦ absurd (ground (arith, none_there))
    | inr (r, e) ↦ elim (Bool-cases (is_rolled_back r.state)) [
      | inl again ↦ inl (ground (arith, e, again))
      | inr first ↦ inr (r, e, ground (arith, e, first))
    ]
  ]

  pub verify_target-cases :
      (handle : String) (w n : Value) (actor : String)
      → verify_target issue id handle w n actor now ≡ ok m'
      → StepsFrom
          (λ x r. verify_first issue.metadata r handle w n actor now ≡ ok x)
          issue.metadata
          m'
  unfolding verify_target named_receipt
  verify_target-cases handle w n actor h = elim (Option-cases issue.metadata.owner_migration) [
    | inl none_there ↦ absurd (ground (arith, none_there))
    | inr (r, e) ↦ elim (Bool-cases (is_verified r.state)) [
      | inl again ↦ inl (ground (arith, e, again))
      | inr first ↦ inr (r, e, ground (arith, e, first))
    ]
  ]

  pub preflight-cases :
      (digests : Digests) (w n : Value) (actor : String)
      → preflight digests issue id w n actor now ≡ ok m'
      → StepsFrom (λ x r. preflight_first digests issue r w n actor now ≡ ok x) issue.metadata m'
  unfolding preflight named_receipt
  preflight-cases digests w n actor h = elim (Option-cases issue.metadata.owner_migration) [
    | inl none_there ↦ absurd (ground (arith, none_there))
    | inr (r, e) ↦ elim (Bool-cases (is_target_preflighted r.state)) [
      | inl again ↦ inl (ground (arith, e, again))
      | inr first ↦ inr (r, e, ground (arith, e, first))
    ]
  ]

  pub claim-cases :
      (q : ClaimRequest)
      → claim issue id q now ≡ ok m'
      → StepsFrom
          (λ x r.
            (handle : String) × (owner_identity q.target_executor_handle ≡ ok handle)
            × (claim_first issue.metadata r handle q now ≡ ok x))
          issue.metadata
          m'
  unfolding claim named_receipt
  claim-cases q h = elim (Option-cases issue.metadata.owner_migration) [
    | inl none_there ↦ absurd (ground (arith, none_there))
    | inr (r, e) ↦ elim (Result-cases (owner_identity q.target_executor_handle)) [
      | inr (x, bad) ↦ absurd (ground (arith, e, bad))
      | inl (handle, good) ↦ elim (Bool-cases (is_claimed r.state)) [
        | inl again ↦ inl (ground (arith, e, good, again))
        | inr first ↦ inr (r, e, (handle, good, ground (arith, e, good, first)))
      ]
    ]
  ]
