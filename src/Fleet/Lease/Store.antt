-- ===== src/Fleet/Lease/Store.antt =====
-- Reading and writing the lease store, its audit trail, and the expiry of leases.
use opl_flow.Base.{
  ℕ, String, Bool, true, false, not, ◌&&◌, Option, none, some, List, [], ◌∷◌, ◌++◌, ◌==◌, ◌-◌, ◌/◌,
  ◌%◌, leb, eqb, if◌then◌else◌, last_n, is_empty, ok, raise_if, ◌>>=◌, ◌>>◌,
}
use opl_flow.Base.Results.{Result}
use opl_flow.Base.Int.{ℤ}
use opl_flow.Base.Dict.{Dict, erase}
use opl_flow.Base.Text.{take}
use opl_flow.Fleet.Common.{FleetError, store_mode, active_v1_state}
use opl_flow.Fleet.Lease.Data.{
  Instant, Admission, WorkerBinding, Lease, AuditEvent, LeaseStore, StoreFile, missing, stored,
  empty_lease_store, microseconds,
}
use opl_flow.Fleet.Lease.Validate.{validate_lease_store}

-- the move from the v1 schema, which only a store with no lease makes
unfoldable pub upgrade : LeaseStore → Result FleetError LeaseStore
upgrade payload =
    if payload.schema == "codex_fleet_leases.v1"
    then (do
      raise_if (not (is_empty payload.leases)) active_v1_state
      ok (record payload { schema = "codex_fleet_leases.v2" }))
    else ok payload

module _ (is_uuid : String → Bool) where
  -- `mode & 0o077` are the six low bits of the mode
  unfoldable pub read_lease_store : StoreFile → Result FleetError LeaseStore
  read_lease_store missing = ok empty_lease_store
  read_lease_store (stored mode payload) = do
    raise_if (not (eqb (mode % 64) 0)) store_mode
    upgraded ← upgrade payload
    validate_lease_store is_uuid upgraded

  -- the file that `atomic_json` leaves, with mode 0600
  unfoldable pub write_lease_store : LeaseStore → Result FleetError StoreFile
  write_lease_store payload = do
    validated ← validate_lease_store is_uuid payload
    ok (stored 0o600 validated)

unfoldable pub lease_is_expired : Lease → Instant → Bool
lease_is_expired l now = leb l.expires_at now

unfoldable pub audit_lease : LeaseStore → String → Lease → Instant → String → LeaseStore
audit_lease s event l now reason =
    let audited : AuditEvent = record {
      event = event;
      at = now;
      node_id = l.node_id;
      lease_id = l.lease_id;
      generation = l.generation;
      reason = take 120 reason;
    } in
    record s { audit = last_n 200 (s.audit ++ audited ∷ []) }

-- `if node_id and candidate != node_id: continue`
abbrev pub passed_over : Option String → String → Bool
passed_over none candidate = false
passed_over (some node_id) candidate = not (node_id == "") && not (candidate == node_id)

-- the body of the loop for one lease: the lease goes, and an audit event is left
unfoldable pub reap_one : LeaseStore → String → Lease → Instant → LeaseStore
reap_one s candidate l now =
    audit_lease (record s { leases = erase candidate s.leases }) "reap" l now "ttl-expired"

unfoldable pub reap_items :
    Dict Lease → LeaseStore → Instant → Option String → LeaseStore × List Lease
reap_items [] s now node_id = (s, [])
reap_items ((candidate, l) ∷ rest) s now node_id =
    elim (not (passed_over node_id candidate) && lease_is_expired l now) [
      | true ↦
          let (t, reaped) = reap_items rest (reap_one s candidate l now) now node_id in
          (t, l ∷ reaped)
      | false ↦ reap_items rest s now node_id
    ]

-- the loop runs over a copy of the items
unfoldable pub reap_expired_leases : LeaseStore → Instant → Option String → LeaseStore × List Lease
reap_expired_leases s now node_id = reap_items s.leases s now node_id

-- `active_lease_map`: the leases that have not expired
unfoldable pub active_items : Dict Lease → Instant → Dict Lease
active_items [] now = []
active_items ((node_id, l) ∷ d) now =
    let rest = active_items d now in if lease_is_expired l now then rest else (node_id, l) ∷ rest

module _ (is_uuid : String → Bool) where
  unfoldable pub active_lease_map : StoreFile → Instant → Result FleetError (Dict Lease)
  active_lease_map file now = do s ← read_lease_store is_uuid file; ok (active_items s.leases now)

-- What `public_lease` shows of a lease: every field but the nonce.
pub record LeaseView : Type 0 where
  pub lease_id : String
  pub generation : ℕ
  pub node_id : String
  pub owner_task : String
  pub owner_thread : Option String
  pub owner_run : Option String
  pub role : Option String
  pub workload_class : String
  pub priority : ℤ
  pub preemptible : Bool
  pub phase : String
  pub acquired_at : Instant
  pub expires_at : Instant
  pub control_commit : String
  pub admission : Admission
  pub dispatch_adapter : String
  pub worker_binding : Option WorkerBinding

pub data LeaseState : Type 0 where
  available expired leased : LeaseState

pub record PublicLease : Type 0 where
  pub state : LeaseState
  pub observed_at : Instant
  pub ttl_remaining_seconds : ℕ
  pub view : Option LeaseView

unfoldable pub lease_view : Lease → LeaseView
lease_view l = record {
  lease_id = l.lease_id;
  generation = l.generation;
  node_id = l.node_id;
  owner_task = l.owner_task;
  owner_thread = l.owner_thread;
  owner_run = l.owner_run;
  role = l.role;
  workload_class = l.workload_class;
  priority = l.priority;
  preemptible = l.preemptible;
  phase = l.phase;
  acquired_at = l.acquired_at;
  expires_at = l.expires_at;
  control_commit = l.control_commit;
  admission = l.admission;
  dispatch_adapter = l.dispatch_adapter;
  worker_binding = l.worker_binding;
}

unfoldable pub public_lease : Option Lease → Instant → PublicLease
public_lease none now = record {
  state = available;
  observed_at = now;
  ttl_remaining_seconds = 0;
  view = none;
}
public_lease (some l) now = record {
  state = if lease_is_expired l now then expired else leased;
  observed_at = now;
  -- `max(0, …)`: subtraction on ℕ stops at 0
  ttl_remaining_seconds = (l.expires_at - now) / microseconds;
  view = some (lease_view l);
}
