-- ===== src/Fleet/Runner/Held.antt =====
-- What a runner transaction says of the lease store.
use opl_flow.Base.{◌⊎◌, ◌≢◌, String, Bool, ◌≡◌, Option, some, arith, ok}
use opl_flow.Base.Int.{ℤ}
use opl_flow.Base.Dict.{NodupKeys, lookup}
use opl_flow.Fleet.Common.{normalize_node_id}
use opl_flow.Fleet.Lease.Data.{Instant, Lease, LeaseStore, StoreFile}
use opl_flow.Fleet.Lease.Store.{read_lease_store}
use opl_flow.Fleet.Runner.Record.{
  RunnerTransaction, missing, stored, v2, RunnerBinding, runner_transaction_from_lease,
}
use opl_flow.Fleet.Lease.Reaping.{read_lease_store-IsValid}
use opl_flow.Fleet.Runner.Record.{read_runner_transaction, read_content}
use opl_flow.Fleet.Runner.Commands.{RoleState, found_transaction}

-- The transaction stands in its file, and names the lease that its node has in the store.
pub record Holds (w : RoleState) (s : LeaseStore) (t : RunnerTransaction) (l : Lease) : Type 0 where
  pub written : w.transaction ≡ stored 384 (v2 t)
  pub leased : lookup t.start.node_id s.leases ≡ some l
  pub id : t.start.lease_id ≡ l.lease_id
  pub generation : t.start.generation ≡ l.generation
  pub nonce : t.start.nonce ≡ l.nonce
  pub owner : t.start.owner_task ≡ l.owner_task
  pub expiry : t.lease_expires_at ≡ l.expires_at

-- The store of the state can be read, and a transaction that is there names a lease of it.
pub record IsConsistent (is_uuid : String → Bool) (w : RoleState) (s : LeaseStore) : Type 0 where
  pub reads : read_lease_store is_uuid w.store ≡ ok s
  pub unique : NodupKeys s.leases
  pub names : (w.transaction ≡ missing) ⊎ ((t : RunnerTransaction) × (l : Lease) × Holds w s t l)

pub transaction-fields :
    (role : String) (b : RunnerBinding) (l : Lease) (ttl : ℤ) (t : RunnerTransaction)
    → runner_transaction_from_lease role b l ttl ≡ ok t
    → (t.start.node_id ≡ l.node_id)
      × (t.start.lease_id ≡ l.lease_id)
      × (t.start.generation ≡ l.generation)
      × (t.start.nonce ≡ l.nonce)
      × (t.start.owner_task ≡ l.owner_task)
      × (t.lease_expires_at ≡ l.expires_at)
unfolding runner_transaction_from_lease
transaction-fields role b l ttl t h = ground arith

module _ (is_uuid : String → Bool) where
  -- the lease at a node of a store that can be read is of that node, whose name is in normal form
  pub lease_at :
      (file : StoreFile) (s : LeaseStore) (k : String) (l : Lease)
      → read_lease_store is_uuid file ≡ ok s
      → lookup k s.leases ≡ some l
      → (l.node_id ≡ k) × (normalize_node_id k ≡ ok k)
  lease_at file s k l reads e =
      let (sound, named, fits) = (read_lease_store-IsValid is_uuid file s reads).at_key k l e in
      (named, rw (← named) sound.normal)

  -- a transaction that is read is the one that stands in the file
  pub found-stored :
      (owner : Option String) (w : RoleState) (t u : RunnerTransaction) (revision : String)
      (now : Instant)
      → w.transaction ≡ stored 384 (v2 t)
      → found_transaction is_uuid owner w revision now ≡ ok u
      → u ≡ t
  unfolding found_transaction read_runner_transaction read_content
  found-stored owner w t u revision now written h = ground (arith, written)

  -- no transaction is found where there is no file
  pub found-missing :
      (owner : Option String) (w : RoleState) (u : RunnerTransaction) (revision : String)
      (now : Instant)
      → w.transaction ≡ missing
      → found_transaction is_uuid owner w revision now ≢ ok u
  unfolding found_transaction read_runner_transaction
  found-missing owner w u revision now written h = ground (arith, written)
