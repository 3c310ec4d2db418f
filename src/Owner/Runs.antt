-- ===== src/Owner/Runs.antt =====
-- What holds after any calls on one issue.
use mathlib.Core.Path.{subst}
use opl_flow.Base.{
  ◌<◌, String, Bool, true, ◌≡◌, ◌⊎◌, inl, inr, refl, sym, ◌∙◌, ap, none, some, List, [], ◌∷◌, arith,
  ok, err,
}
use opl_flow.Base.Results.{Result}
use opl_flow.Json.{Value}
use opl_flow.Owner.Data.{OwnerError, Claim, ClaimEntry, held, Metadata, Objective, Issue, Digests}
use opl_flow.Owner.Steps.{ClaimRequest, claim, verify_target, release_source, rollback}
use opl_flow.Owner.Prepare.{PrepareRequest, prepare, preflight}
use opl_flow.Owner.Effects.{
  complete_first-eq-ok, rollback_first-eq-ok, claim_first-eq-ok, verify_first-eq-ok,
  preflight_first-eq-ok, prepare-eq-ok, current_claim-held,
}
use opl_flow.Owner.Invariant.{
  target_claim, Standing, IsConsistent, here, complete_first-IsConsistent,
  rollback_first-IsConsistent, claim_first-IsConsistent, verify_first-IsConsistent,
  preflight_first-IsConsistent,
}
use opl_flow.Owner.Cases.{
  release_source-cases, rollback-cases, verify_target-cases, preflight-cases, claim-cases,
}
use opl_flow.Owner.Calls.{
  Call, preparing, preflighting, claiming, verifying, releasing, rolling_back, kept, respond,
  run_calls,
}

-- The claim stays, or its generation grows.
pub record Advances (e e' : ClaimEntry) : Type 0 where
  pub from :
      (c : Claim)
      → e ≡ held c
      → (c' : Claim) × (e' ≡ held c') × ((c' ≡ c) ⊎ (c.generation < c'.generation))

Advances-same : (e e' : ClaimEntry) → e' ≡ e → Advances e e'
Advances-same e e' same = record { from = λ c at. (c, same ∙ at, inl refl) }

Advances-trans : (e f g : ClaimEntry) → Advances e f → Advances f g → Advances e g
Advances-trans e f g p q = record {
  from = λ c at.
      let (d, held_d, first) = p.from c at in
      let (x, held_x, second) = q.from d held_d in (x, held_x, ground (arith, first, second));
}

-- what a call keeps: the agreement of receipt and claim, and the order of the claims
abbrev Keeps : Metadata → Metadata → Type 0
Keeps m m' = (IsConsistent m → IsConsistent m') × Advances m.owner_claim m'.owner_claim

Keeps-same : (m m' : Metadata) → m' ≡ m → Keeps m m'
Keeps-same m m' same = (
  λ c. subst IsConsistent (sym same) c,
  Advances-same m.owner_claim m'.owner_claim (ap (λ x. x.owner_claim) same),
)

module _ (is_uuid : String → Bool) (digests : Digests) (o : Objective) (m m' : Metadata) where
  abbrev issue : Issue
  issue = record { objective = o; metadata = m }

  prepare-Keeps :
      (q : PrepareRequest) (now : String) → prepare is_uuid digests issue q now ≡ ok m' → Keeps m m'
  prepare-Keeps q now h =
      let (free, c, r, mine, state, claims, plain, prints, counts, after) =
        prepare-eq-ok is_uuid digests issue q now m' h in
      let m'' : Metadata = record m {
        owner_claim = held c;
        owner_migration = some r;
        owner_mutation_frozen = some true;
      } in
      (
        λ _. rw after (
            here m'' r refl
              (subst (λ s. Standing s m'' r) (sym state) (ap held (sym claims), plain, refl))),
        record {
          from = λ d at. (
            c,
            ground (arith, after),
            inl (
                current_claim-held m q.source_owner_id q.source_node_id q.source_executor_handle d c
                  at mine),
          );
        },
      )

  preflight-Keeps :
      (id : String) (w n : Value) (actor now : String)
      → preflight digests issue id w n actor now ≡ ok m'
      → Keeps m m'
  preflight-Keeps id w n actor now h = elim (preflight-cases issue m' id now digests w n actor h) [
    | inl same ↦ Keeps-same m m' same
    | inr (r, e, first) ↦
        let (_, _, _, _, _, after) = preflight_first-eq-ok digests issue r m' actor now w n first in
        (
          λ c. preflight_first-IsConsistent m r e c digests o m' w n actor now first,
          Advances-same m.owner_claim m'.owner_claim (ap (λ x. x.owner_claim) after),
        )
  ]

  claim-Keeps :
      (id : String) (q : ClaimRequest) (now : String) → claim issue id q now ≡ ok m' → Keeps m m'
  claim-Keeps id q now h = elim (claim-cases issue m' id now q h) [
    | inl same ↦ Keeps-same m m' same
    | inr (r, e, (handle, good, first)) ↦
        let (_, owned, _, _, _, after) = claim_first-eq-ok m m' r "" now handle q first in
        (
          λ c. claim_first-IsConsistent m r e c m' handle q now first,
          record {
            from = λ c at. (
              target_claim r handle,
              ap (λ x. x.owner_claim) after,
              inr (ground (arith, owned, at)),
            );
          },
        )
  ]

  verify_target-Keeps :
      (id handle : String) (w n : Value) (actor now : String)
      → verify_target issue id handle w n actor now ≡ ok m'
      → Keeps m m'
  verify_target-Keeps id handle w n actor now h =
      elim (verify_target-cases issue m' id now handle w n actor h) [
        | inl same ↦ Keeps-same m m' same
        | inr (r, e, first) ↦
            let (_, _, _, _, _, _, after) = verify_first-eq-ok m m' r actor now handle w n first in
            (
              λ c. verify_first-IsConsistent m r e c m' handle w n actor now first,
              Advances-same m.owner_claim m'.owner_claim (ap (λ x. x.owner_claim) after),
            )
      ]

  release_source-Keeps :
      (id actor now : String) → release_source issue id actor now ≡ ok m' → Keeps m m'
  release_source-Keeps id actor now h = elim (release_source-cases issue m' id now actor h) [
    | inl same ↦ Keeps-same m m' same
    | inr (r, e, first) ↦
        let (_, _, after) = complete_first-eq-ok m m' r actor now first in
        (
          λ c. complete_first-IsConsistent m r e c m' actor now first,
          Advances-same m.owner_claim m'.owner_claim (ap (λ x. x.owner_claim) after),
        )
  ]

  rollback-Keeps : (id actor now : String) → rollback issue id actor now ≡ ok m' → Keeps m m'
  rollback-Keeps id actor now h = elim (rollback-cases issue m' id now actor h) [
    | inl same ↦ Keeps-same m m' same
    | inr (r, e, first) ↦
        let (_, _, _, after) = rollback_first-eq-ok m m' r actor now first in
        (
          λ c. rollback_first-IsConsistent m r e c m' actor now first,
          Advances-same m.owner_claim m'.owner_claim (ap (λ x. x.owner_claim) after),
        )
  ]

  respond-Keeps : (c : Call) → respond is_uuid digests issue c ≡ ok m' → Keeps m m'
  unfolding respond
  respond-Keeps (preparing q now) h = prepare-Keeps q now h
  respond-Keeps (preflighting id w n actor now) h = preflight-Keeps id w n actor now h
  respond-Keeps (claiming id q now) h = claim-Keeps id q now h
  respond-Keeps (verifying id handle w n actor now) h =
      verify_target-Keeps id handle w n actor now h
  respond-Keeps (releasing id actor now) h = release_source-Keeps id actor now h
  respond-Keeps (rolling_back id actor now) h = rollback-Keeps id actor now h

-- a step of a call that may fail
kept-Keeps :
    (m : Metadata) (r : Result OwnerError Metadata)
    → ((m' : Metadata) → r ≡ ok m' → Keeps m m')
    → Keeps m (kept m r)
kept-Keeps m (ok m') k = k m' refl
kept-Keeps m (err e) k = Keeps-same m m refl

Keeps-trans : (a b c : Metadata) → Keeps a b → Keeps b c → Keeps a c
Keeps-trans a b c (safe, grows) (safe', grows') =
    (λ k. safe' (safe k), Advances-trans a.owner_claim b.owner_claim c.owner_claim grows grows')

module _ (is_uuid : String → Bool) (digests : Digests) where
  run_calls-Keeps :
      (m : Metadata) (cs : List (Objective × Call)) → Keeps m (run_calls is_uuid digests m cs)
  unfolding run_calls
  run_calls-Keeps m [] = Keeps-same m m refl
  run_calls-Keeps m ((o, c) ∷ cs) =
      let r : Result OwnerError Metadata =
        respond is_uuid digests (record { objective = o; metadata = m }) c in
      Keeps-trans m (kept m r) (run_calls is_uuid digests (kept m r) cs)
        (kept-Keeps m r (λ m' e. respond-Keeps is_uuid digests o m m' c e))
        (run_calls-Keeps (kept m r) cs)

  -- Whatever calls are made on an issue with no migration, in any order, with any arguments and
  -- any failures: the receipt's state says who holds the claim. Before a claim and after a
  -- rollback it is the source's, and the receipt names no executor; from the acknowledgement on it
  -- is the claim of the target's executor, one generation on. The owner is frozen until the
  -- migration is completed or rolled back.
  pub run_calls-IsConsistent :
      (m : Metadata) (cs : List (Objective × Call))
      → m.owner_migration ≡ none
      → IsConsistent (run_calls is_uuid digests m cs)
  run_calls-IsConsistent m cs empty = (run_calls-Keeps m cs).0 (record { at = λ r e. cc })

  -- Whatever calls are made, the owner claim stays as it is, or its generation grows: no two
  -- claims of one generation follow one another.
  pub run_calls-Advances :
      (m : Metadata) (cs : List (Objective × Call)) (c : Claim)
      → m.owner_claim ≡ held c
      → (c' : Claim) × ((run_calls is_uuid digests m cs).owner_claim ≡ held c')
        × ((c' ≡ c) ⊎ (c.generation < c'.generation))
  run_calls-Advances m cs c at = (run_calls-Keeps m cs).1.from c at
