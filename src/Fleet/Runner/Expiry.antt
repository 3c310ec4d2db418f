-- ===== src/Fleet/Runner/Expiry.antt =====
-- The commands of a role whose lease has expired.
use opl_flow.Base.{String, Bool, ◌≡◌, inl, inr, Option, none, some, ◌≤◌, arith, ok, Result-cases}
use opl_flow.Base.Results.{Result}
use opl_flow.Base.Int.{ℤ}
use opl_flow.Fleet.Common.{FleetError}
use opl_flow.Fleet.Lease.Data.{Instant, Lease, LeaseStore}
use opl_flow.Fleet.Lease.Store.{read_lease_store}
use opl_flow.Fleet.Admission.Roles.{NodeRegistry}
use opl_flow.Fleet.Runner.Control.{ControlStatus, GithubState}
use opl_flow.Fleet.Runner.Record.{
  RunnerTransaction, stored, v2, read_runner_transaction, read_content, credential_of,
}
use opl_flow.Fleet.Runner.Commands.{
  RoleState, Shutdown, StartArgs, StartAnswers, confirm_runner_shutdown, start_admission,
  fleet_runner_start, found_transaction, fleet_runner_stop, fleet_runner_renew, renewal_checks,
  ttl_or,
}
use opl_flow.Fleet.Runner.Held.{Holds, lease_at, found-stored}
use opl_flow.Fleet.Lease.Ownership.{expired_refused}

module _ (is_uuid : String → Bool) (casefold : String → String) (registry : NodeRegistry) where
  start_stays :
      (a : StartArgs) (x : StartAnswers) (w : RoleState) (t : RunnerTransaction)
      → w.transaction ≡ stored 384 (v2 t)
      → (fleet_runner_start is_uuid casefold registry a x w).0 ≡ w
  unfolding fleet_runner_start start_admission read_runner_transaction read_content
  start_stays a x w t written = ground (arith, written)

  stop_stays :
      (owner : Option String) (revision : String) (now : Instant) (x : Shutdown)
      (released_at : Instant) (w : RoleState) (s : LeaseStore) (t : RunnerTransaction) (l : Lease)
      → read_lease_store is_uuid w.store ≡ ok s
      → Holds w s t l
      → l.expires_at ≤ released_at
      → (fleet_runner_stop is_uuid owner revision now x released_at w).0 ≡ w
  unfolding fleet_runner_stop
  stop_stays owner revision now x released_at w s t l reads holds late =
      let (named, plain) = lease_at is_uuid w.store s t.start.node_id l reads holds.leased in
      let (_, refused) =
        expired_refused is_uuid (credential_of t) t.ttl_seconds none "" released_at w.store s
          t.start.node_id l reads plain holds.leased late in
      elim (Result-cases (found_transaction is_uuid owner w revision now)) [
        | inr (e, bad) ↦ ground (arith, bad)
        | inl (u, found) ↦
            let same = found-stored is_uuid owner w t u revision now holds.written found in
            elim (Result-cases (confirm_runner_shutdown x)) [
              | inr (e, bad) ↦ ground (arith, found, bad)
              | inl (down, confirmed) ↦ ground (arith, found, confirmed, refused, same)
            ]
      ]

  renew_stays :
      (owner : Option String) (ttl : Option ℤ) (revision : String) (now : Instant)
      (status : Result FleetError ControlStatus) (github : Result FleetError GithubState)
      (nonce : String) (renew_at renewed_at : Instant) (w : RoleState) (s : LeaseStore)
      (t : RunnerTransaction) (l : Lease)
      → read_lease_store is_uuid w.store ≡ ok s
      → Holds w s t l
      → l.expires_at ≤ renew_at
      → (fleet_runner_renew is_uuid owner ttl revision now status github nonce renew_at renewed_at
          w).0
        ≡ w
  unfolding fleet_runner_renew renewal_checks
  renew_stays owner ttl revision now status github nonce renew_at renewed_at w s t l reads holds
        late =
      let (named, plain) = lease_at is_uuid w.store s t.start.node_id l reads holds.leased in
      elim (Result-cases (found_transaction is_uuid owner w revision now)) [
        | inr (e, bad) ↦ ground (arith, bad)
        | inl (u, found) ↦
            let same = found-stored is_uuid owner w t u revision now holds.written found in
            let (refused, _) =
              expired_refused is_uuid (credential_of t) (ttl_or ttl t.ttl_seconds)
                (some t.start.phase) nonce renew_at w.store s t.start.node_id l reads plain
                holds.leased late in
            ground (arith, found, refused, same)
      ]

  -- Once the lease that a role's transaction names has expired, none of the three commands changes
  -- the store or the transaction any more: a start finds the transaction, and the lease can be
  -- neither renewed nor released.
  pub expired_role_stays :
      (w : RoleState) (s : LeaseStore) (t : RunnerTransaction) (l : Lease) (late : Instant)
      (a : StartArgs) (start_answers : StartAnswers) (shutdown : Shutdown) (owner : Option String)
      (ttl : Option ℤ) (revision nonce : String) (now renewed_at : Instant)
      (status : Result FleetError ControlStatus) (github : Result FleetError GithubState)
      → read_lease_store is_uuid w.store ≡ ok s
      → Holds w s t l
      → l.expires_at ≤ late
      → ((fleet_runner_start is_uuid casefold registry a start_answers w).0 ≡ w)
        × ((fleet_runner_stop is_uuid owner revision now shutdown late w).0 ≡ w)
        × ((fleet_runner_renew is_uuid owner ttl revision now status github nonce late renewed_at
              w).0
            ≡ w)
  expired_role_stays w s t l late a x shutdown owner ttl revision nonce now renewed_at status github
        reads holds expired =
      (
        start_stays a x w t holds.written,
        stop_stays owner revision now shutdown late w s t l reads holds expired,
        renew_stays owner ttl revision now status github nonce late renewed_at w s t l reads holds
            expired,
      )
