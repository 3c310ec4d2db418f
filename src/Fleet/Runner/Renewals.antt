-- ===== src/Fleet/Runner/Renewals.antt =====
-- What a renewal of a runner's lease leaves behind.
use opl_flow.Base.{
  String, Bool, ◌≡◌, refl, sym, ◌∙◌, inl, inr, Option, some, ◌<◌, arith, ok, err, Result-cases,
}
use opl_flow.Base.Results.{Result}
use opl_flow.Base.Int.{ℤ}
use opl_flow.Base.Dict.{NodupKeys}
use opl_flow.Fleet.Common.{FleetError}
use opl_flow.Fleet.Lease.Reaping.{read_lease_store-IsValid}
use opl_flow.Fleet.Lease.Data.{Instant, Lease, LeaseStore, StoreFile}
use opl_flow.Fleet.Lease.Store.{read_lease_store}
use opl_flow.Fleet.Lease.Records.{renew_lease_record}
use opl_flow.Fleet.Lease.Transactions.{Puts}
use opl_flow.Fleet.Lease.Files.{renew_lease_record-Puts}
use opl_flow.Fleet.Lease.Ownership.{renew_lease_record-Renews}
use opl_flow.Fleet.Runner.Control.{ControlStatus, GithubState}
use opl_flow.Fleet.Runner.Record.{RunnerTransaction, stored, v2, credential_of, renewed_transaction}
use opl_flow.Fleet.Runner.Commands.{
  RoleState, found_transaction, fleet_runner_renew, renewal_checks, ttl_or,
}
use opl_flow.Fleet.Runner.Held.{Holds, IsConsistent, lease_at, found-stored, found-missing}

-- The state after a renewal: a newer transaction of the same lease, which its node has.
pub record Renewed (is_uuid : String → Bool) (w w' : RoleState) (s : LeaseStore) (l : Lease)
    : Type 0 where
  pub before : RunnerTransaction
  pub transaction : RunnerTransaction
  pub store : LeaseStore
  pub was : w.transaction ≡ stored 384 (v2 before)
  pub reads : read_lease_store is_uuid w'.store ≡ ok store
  pub unique : NodupKeys store.leases
  pub holds : Holds w' store transaction l
  pub same_id : transaction.start.lease_id ≡ before.start.lease_id
  pub newer : before.start.generation < transaction.start.generation
  pub puts : Puts s before.start.node_id l store

module _ (is_uuid : String → Bool) where
  -- A renewal that fails leaves the lease store and the transaction as they were.
  pub fleet_runner_renew-err :
      (owner : Option String) (ttl : Option ℤ) (revision : String) (now : Instant)
      (status : Result FleetError ControlStatus) (github : Result FleetError GithubState)
      (nonce : String) (renew_at renewed_at : Instant) (w w' : RoleState) (e : FleetError)
      → fleet_runner_renew is_uuid owner ttl revision now status github nonce renew_at renewed_at w
        ≡ (w', err e)
      → w' ≡ w
  unfolding fleet_runner_renew
  fleet_runner_renew-err owner ttl revision now status github nonce renew_at renewed_at w w' e h =
      ground arith

  renewal_checks-found :
      (owner : Option String) (revision : String) (now : Instant)
      (status : Result FleetError ControlStatus) (github : Result FleetError GithubState)
      (w : RoleState) (t : RunnerTransaction)
      → renewal_checks is_uuid owner revision now status github w ≡ ok t
      → found_transaction is_uuid owner w revision now ≡ ok t
  unfolding renewal_checks
  renewal_checks-found owner revision now status github w t h = ground arith

  -- the state after the renewal of the lease that the transaction names
  renew_record-Renewed :
      (w : RoleState) (s : LeaseStore) (t : RunnerTransaction) (l m : Lease) (ttl : ℤ)
      (phase : Option String) (nonce : String) (renew_at renewed_at : Instant) (file : StoreFile)
      → read_lease_store is_uuid w.store ≡ ok s
      → NodupKeys s.leases
      → Holds w s t m
      → renew_lease_record is_uuid (credential_of t) ttl phase nonce renew_at w.store ≡ ok (l, file)
      → Renewed is_uuid w
          (record {
            store = file;
            transaction = stored 384 (v2 (renewed_transaction t l ttl renewed_at));
          })
          s
          l
  renew_record-Renewed w s t l m ttl phase nonce renew_at renewed_at file reads unique holds h =
      let (node, u, normal, _, puts, again) =
        renew_lease_record-Puts is_uuid (credential_of t) ttl phase nonce renew_at w.store file s l
          reads h in
      let (node2, m2, normal2, held2, r) =
        renew_lease_record-Renews is_uuid (credential_of t) ttl phase nonce renew_at w.store file s
          l reads h in
      let (named, plain) = lease_at is_uuid w.store s t.start.node_id m reads holds.leased in
      let here : t.start.node_id ≡ node = ground (arith, plain, normal) in
      let there : t.start.node_id ≡ node2 = ground (arith, plain, normal2) in
      let (_, _, fits) =
        (read_lease_store-IsValid is_uuid w.store s reads).at_key t.start.node_id m holds.leased in
      record {
        before = t;
        transaction = renewed_transaction t l ttl renewed_at;
        store = u;
        was = holds.written;
        reads = again;
        unique = puts.nodup unique;
        holds = record {
          written = refl;
          leased = rw here puts.held;
          id = sym (r.same_id ∙ r.id);
          generation = refl;
          nonce = refl;
          owner = sym (r.same_owner ∙ r.owner);
          expiry = refl;
        };
        same_id = refl;
        newer = ground (arith, puts.counted, puts.numbered, fits, holds.generation);
        puts = rw here puts;
      }

  -- A renewal that succeeds, from a state whose transaction names a lease that its node has, leaves
  -- such a state again: the node has the renewed lease, the other nodes what they had, and the new
  -- transaction names it, under the same id and with a later generation.
  pub fleet_runner_renew-Renewed :
      (owner : Option String) (ttl : Option ℤ) (revision : String) (now : Instant)
      (status : Result FleetError ControlStatus) (github : Result FleetError GithubState)
      (nonce : String) (renew_at renewed_at : Instant) (w w' : RoleState) (s : LeaseStore)
      (l : Lease)
      → IsConsistent is_uuid w s
      → fleet_runner_renew is_uuid owner ttl revision now status github nonce renew_at renewed_at w
        ≡ (w', ok l)
      → Renewed is_uuid w w' s l
  unfolding fleet_runner_renew
  fleet_runner_renew-Renewed owner ttl revision now status github nonce renew_at renewed_at w w' s l
        c h =
      elim (Result-cases (renewal_checks is_uuid owner revision now status github w)) [
        | inr (e, bad) ↦ absurd (ground (arith, bad))
        | inl (t, checked) ↦
            let z = ttl_or ttl t.ttl_seconds in
            elim (Result-cases (
              renew_lease_record is_uuid (credential_of t) z (some t.start.phase) nonce renew_at
                w.store)) [
                  | inr (e, bad) ↦ absurd (ground (arith, checked, bad))
                  | inl ((m, file), done) ↦
                      let found =
                        renewal_checks-found owner revision now status github w t checked in
                      let same : m ≡ l = ground (arith, checked, done) in
                      let state : w' ≡ record {
                        store = file;
                        transaction = stored 384 (v2 (renewed_transaction t m z renewed_at));
                      } =
                        ground (arith, checked, done) in
                      elim c.names [
                        | inl gone ↦
                            absurd (found-missing is_uuid owner w t revision now gone found)
                        | inr (u, k, holds) ↦
                            let is_that =
                              found-stored is_uuid owner w u t revision now holds.written found in
                            rw (state, ← same)
                              (renew_record-Renewed w s t m k z (some t.start.phase) nonce renew_at
                                renewed_at file c.reads c.unique (rw is_that holds) done)
                      ]
                ]
      ]
