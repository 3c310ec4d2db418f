-- ===== src/Owner/Invariant.antt =====
-- The agreement of receipt, claim and freeze in each state of a migration.
use mathlib.Core.Path.{subst}
use mathlib.Core.Option.{some-injective}
use opl_flow.Base.{◌+◌, String, Bool, true, false, ◌≡◌, refl, sym, ◌∙◌, none, some, ok}
use opl_flow.Json.{Value}
use opl_flow.Owner.Data.{
  MigrationState, source_checkpointed, target_preflighted, target_acknowledged, target_verified,
  completed, rolled_back, blocked, unknown, other, Claim, held, Receipt, Metadata, Objective,
  Digests,
}
use opl_flow.Owner.States.{may_roll_back}
use opl_flow.Owner.Steps.{ClaimRequest, claim_first, verify_first, complete_first, rollback_first}
use opl_flow.Owner.Prepare.{preflight_first}
use opl_flow.Owner.Effects.{
  complete_first-eq-ok, rollback_first-eq-ok, claim_first-eq-ok, verify_first-eq-ok,
  preflight_first-eq-ok,
}

-- the claim of the target, once an executor has taken the task over
abbrev pub target_claim : Receipt → String → Claim
target_claim r handle = record {
  generation = r.source_claim.generation + 1;
  owner_id = r.target.owner_id;
  node_id = r.target.node_id;
  executor_handle = handle;
}

-- the source owns the task, and no executor of the target has claimed it
abbrev pub AtSource : Bool → Metadata → Receipt → Type 0
AtSource frozen m r =
    (m.owner_claim ≡ held r.source_claim)
    × (r.target.executor_handle ≡ none)
    × (m.owner_mutation_frozen ≡ some frozen)

-- the executor that the receipt names owns the task
abbrev pub AtTarget : Bool → Metadata → Receipt → Type 0
AtTarget frozen m r =
    (handle : String) × (r.target.executor_handle ≡ some handle)
    × (m.owner_claim ≡ held (target_claim r handle))
    × (m.owner_mutation_frozen ≡ some frozen)

-- Who owns the task in each state of its migration, and whether its owner is frozen.
abbrev pub Standing : MigrationState → Metadata → Receipt → Type 0
Standing source_checkpointed = AtSource true
Standing target_preflighted = AtSource true
Standing rolled_back = AtSource false
Standing target_acknowledged = AtTarget true
Standing target_verified = AtTarget true
Standing completed = AtTarget false
Standing _ = λ m r. ⊥

pub record IsConsistent (m : Metadata) : Type 0 where
  pub at : (r : Receipt) → m.owner_migration ≡ some r → Standing r.state m r

-- the receipt of the metadata is the one that stands there
pub here :
    (m : Metadata) (r : Receipt)
    → m.owner_migration ≡ some r
    → Standing r.state m r
    → IsConsistent m
here m r e s = record {
  at = λ r' e'. subst (λ x. Standing x.state m x) (some-injective r r' (sym e ∙ e')) s;
}

-- a migration that may be rolled back has no executor of the target
unclaimed :
    (m : Metadata) (r : Receipt) (s : MigrationState)
    → may_roll_back s ≡ true
    → Standing s m r
    → r.target.executor_handle ≡ none
unclaimed m r source_checkpointed may st = st.1
unclaimed m r target_preflighted may st = st.1
unclaimed m r rolled_back may st = st.1
unclaimed m r blocked may st = absurd st
unclaimed m r unknown may st = absurd st
unclaimed m r (other s) may st = absurd st
unclaimed m r target_acknowledged may st = cc
unclaimed m r target_verified may st = cc
unclaimed m r completed may st = cc

module _ (m : Metadata) (r : Receipt) (e : m.owner_migration ≡ some r) (c : IsConsistent m) where
  standing : (s : MigrationState) → r.state ≡ s → Standing s m r
  standing s same = subst (λ x. Standing x m r) same (c.at r e)

  pub complete_first-IsConsistent :
      (m' : Metadata) (actor now : String) → complete_first m r actor now ≡ ok m' → IsConsistent m'
  complete_first-IsConsistent m' actor now h =
      let (state, ts, after) = complete_first-eq-ok m m' r actor now h in
      let (handle, mine, owned, _) = standing target_verified state in
      rw after (here _ _ refl (handle, mine, owned, refl))

  pub rollback_first-IsConsistent :
      (m' : Metadata) (actor now : String) → rollback_first m r actor now ≡ ok m' → IsConsistent m'
  rollback_first-IsConsistent m' actor now h =
      let (may, owned, ts, after) = rollback_first-eq-ok m m' r actor now h in
      rw after (here _ _ refl (owned, unclaimed m r r.state may (c.at r e), refl))

  pub claim_first-IsConsistent :
      (m' : Metadata) (handle : String) (q : ClaimRequest) (now : String)
      → claim_first m r handle q now ≡ ok m'
      → IsConsistent m'
  claim_first-IsConsistent m' handle q now h =
      let (state, owned, p, ts, confirmed, after) = claim_first-eq-ok m m' r "" now handle q h in
      let (_, _, frozen) = standing target_preflighted state in
      rw after (here _ _ refl (handle, refl, refl, frozen))

  pub verify_first-IsConsistent :
      (m' : Metadata) (handle : String) (w n : Value) (actor now : String)
      → verify_first m r handle w n actor now ≡ ok m'
      → IsConsistent m'
  verify_first-IsConsistent m' handle w n actor now h =
      let (state, owned, mine, p, ts, confirmed, after) =
        verify_first-eq-ok m m' r actor now handle w n h in
      let (_, _, _, frozen) = standing target_acknowledged state in
      rw after (here _ _ refl (handle, mine, owned, frozen))

  pub preflight_first-IsConsistent :
      (digests : Digests) (o : Objective) (m' : Metadata) (w n : Value) (actor now : String)
      → preflight_first digests (record { objective = o; metadata = m }) r w n actor now ≡ ok m'
      → IsConsistent m'
  preflight_first-IsConsistent digests o m' w n actor now h =
      let (state, same, p, ts, fresh, after) =
        preflight_first-eq-ok digests (record { objective = o; metadata = m }) r m' actor now w n
          h in
      let (owned, plain, frozen) = standing source_checkpointed state in
      rw after (here _ _ refl (owned, plain, frozen))
