-- ===== src/Fleet/Runner/Stops.antt =====
-- What a stop and a renewal of a runner leave behind.
use opl_flow.Base.{
  some, false, Option-cases, String, Bool, ◌≡◌, refl, inl, inr, Option, arith, ok, err,
  Result-cases,
}
use opl_flow.Fleet.Common.{FleetError, normalize_node_id}
use opl_flow.Fleet.Lease.Data.{Instant, Lease, LeaseStore}
use opl_flow.Fleet.Lease.Store.{read_lease_store}
use opl_flow.Fleet.Lease.Records.{release_lease_record}
use opl_flow.Fleet.Lease.Transactions.{Takes}
use opl_flow.Fleet.Lease.Files.{release_lease_record-Takes}
use opl_flow.Fleet.Runner.Control.{ControlStatus, GithubState}
use opl_flow.Fleet.Runner.Record.{
  RunnerTransaction, missing, credential_of, read_runner_transaction,
}
use opl_flow.Fleet.Runner.Commands.{
  RoleState, Shutdown, is_down, confirm_runner_shutdown, found_transaction, fleet_runner_stop,
}

module _ (is_uuid : String → Bool) where
  -- The runner is not enabled, has no process, and is offline in its own status and on GitHub.
  pub record IsOff (after : ControlStatus) (observed : GithubState) : Type 0 where
    pub enabled : after.enabled ≡ false
    pub processes : after.processes ≡ 0
    pub online : after.online ≡ false
    pub github : observed.online ≡ false

  confirm-down :
      (x : Shutdown) (after : ControlStatus) (observed : GithubState)
      → confirm_runner_shutdown x ≡ ok (after, observed)
      → IsOff after observed
  unfolding confirm_runner_shutdown is_down
  confirm-down x after observed h = record {
    enabled = ground arith;
    processes = ground arith;
    online = ground arith;
    github = ground arith;
  }

  -- A stop that fails leaves the lease store and the transaction as they were.
  pub fleet_runner_stop-err :
      (owner : Option String) (revision : String) (now : Instant) (x : Shutdown)
      (released_at : Instant) (w w' : RoleState) (e : FleetError)
      → fleet_runner_stop is_uuid owner revision now x released_at w ≡ (w', err e)
      → w' ≡ w
  unfolding fleet_runner_stop
  fleet_runner_stop-err owner revision now x released_at w w' e h = ground arith

  found_transaction-read :
      (owner : Option String) (w : RoleState) (revision : String) (now : Instant)
      (t : RunnerTransaction)
      → found_transaction is_uuid owner w revision now ≡ ok t
      → read_runner_transaction is_uuid w.transaction revision now ≡ ok (some t)
  unfolding found_transaction
  found_transaction-read owner w revision now t h =
      elim (Result-cases (read_runner_transaction is_uuid w.transaction revision now)) [
        | inr (e, bad) ↦ absurd (ground (arith, bad))
        | inl (o, reads) ↦ elim (Option-cases o) [
          | inl none_there ↦ absurd (ground (arith, reads, none_there))
          | inr (u, there) ↦ ground (arith, reads, there)
        ]
      ]

  -- what a stop that ends well has done
  pub record Stopped (owner : Option String) (revision : String) (now : Instant) (w w' : RoleState)
      (s : LeaseStore) (l : Lease) (after : ControlStatus) (observed : GithubState) : Type 0 where
    pub transaction : RunnerTransaction
    pub read : read_runner_transaction is_uuid w.transaction revision now ≡ ok (some transaction)
    pub found : found_transaction is_uuid owner w revision now ≡ ok transaction
    pub store : LeaseStore
    pub removed : w'.transaction ≡ missing
    pub reads : read_lease_store is_uuid w'.store ≡ ok store
    pub node : String
    pub normal : normalize_node_id transaction.start.node_id ≡ ok node
    pub took : Takes s node l store
    pub down : IsOff after observed

  -- A stop that succeeds has removed the transaction file, and has taken from the store the lease at the
  -- node that the transaction read from it names, with the other nodes kept; and before that the
  -- runner was not enabled, without a process, and offline both in its own status and on GitHub.
  pub fleet_runner_stop-Stopped :
      (owner : Option String) (revision : String) (now : Instant) (x : Shutdown)
      (released_at : Instant) (w w' : RoleState) (s : LeaseStore) (l : Lease)
      (after : ControlStatus) (observed : GithubState)
      → read_lease_store is_uuid w.store ≡ ok s
      → fleet_runner_stop is_uuid owner revision now x released_at w ≡ (w', ok (l, after, observed))
      → Stopped owner revision now w w' s l after observed
  unfolding fleet_runner_stop
  fleet_runner_stop-Stopped owner revision now x released_at w w' s l after observed reads h =
      elim (Result-cases (found_transaction is_uuid owner w revision now)) [
        | inr (e, bad) ↦ absurd (ground (arith, bad))
        | inl (t, found) ↦ elim (Result-cases (confirm_runner_shutdown x)) [
          | inr (e, bad) ↦ absurd (ground (arith, found, bad))
          | inl ((a, o), down) ↦
              elim (Result-cases
                (release_lease_record is_uuid (credential_of t) released_at w.store)) [
                  | inr (e, bad) ↦ absurd (ground (arith, found, down, bad))
                  | inl ((m, file), released) ↦
                      let (node, u, normal, took, again) =
                        release_lease_record-Takes is_uuid (credential_of t) released_at w.store
                          file s m reads released in
                      let same : m ≡ l = ground (arith, found, down, released) in
                      let is_after : a ≡ after = ground (arith, found, down, released) in
                      let is_observed : o ≡ observed = ground (arith, found, down, released) in
                      let state : w' ≡ record { store = file; transaction = missing } =
                        ground (arith, found, down, released) in
                      record {
                        transaction = t;
                        read = found_transaction-read owner w revision now t found;
                        found = found;
                        store = u;
                        removed = rw state refl;
                        reads = rw state again;
                        node = node;
                        normal = normal;
                        took = rw (← same) took;
                        down = rw (← is_after, ← is_observed) (confirm-down x a o down);
                      }
                ]
        ]
      ]
