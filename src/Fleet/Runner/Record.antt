-- ===== src/Fleet/Runner/Record.antt =====
-- The file of a runner transaction: its two versions, how it is read, and how it is made from a lease.
use opl_flow.Base.{
  ℕ, String, Bool, true, false, not, Option, none, some, List, [], ◌+◌, ◌*◌, ◌%◌, member, eqb, ok,
  err, raise_if, ◌>>=◌, ◌>>◌,
}
use opl_flow.Base.Results.{Result}
use opl_flow.Base.Int.{ℤ, pos}
use opl_flow.Base.Dict.{Dict, lookup}
use opl_flow.Fleet.Common.{
  FleetError, transaction_mode, binding_unavailable, preemptible_workload_classes,
}
use opl_flow.Fleet.Lease.Data.{Instant, Lease, microseconds}
use opl_flow.Fleet.Lease.Validate.{validate_lease, validate_role, validate_ttl}
use opl_flow.Fleet.Lease.Requests.{Credential, text_or}

-- The keys that both versions have.
pub record RunnerStart : Type 0 where
  pub role : String
  pub node_id : String
  pub repository : String
  pub runner_name : String
  pub lease_id : String
  pub generation : ℕ
  pub nonce : String
  pub owner_task : String
  pub owner_thread : Option String
  pub owner_run : Option String
  pub workload_class : String
  pub phase : String
  pub started_at : Instant

-- A transaction in the shape of v2.
pub record RunnerTransaction : Type 0 where
  pub start : RunnerStart
  pub ttl_seconds : ℤ
  pub renewed_at : Instant
  pub lease_expires_at : Instant

pub data TransactionContent : Type 0 where
  v1 : RunnerStart → TransactionContent
  v2 : RunnerTransaction → TransactionContent

-- The file `controller/runner-transactions/<role>.json`: not there, or its mode bits and its content.
pub data TransactionFile : Type 0 where
  missing : TransactionFile
  stored : ℕ → TransactionContent → TransactionFile

-- The entry of the node registry for the role's runner.
pub record RunnerBinding : Type 0 where
  pub node_id : String
  pub repository : String
  pub runner_name : String
  pub required_features : List String
  pub min_memory_gb : ℤ

unfoldable pub runner_binding : Dict RunnerBinding → String → Result FleetError RunnerBinding
runner_binding bindings role = do
  normalized ← validate_role (some role) true
  elim (lookup (text_or normalized) bindings) [ none ↦ err binding_unavailable | some b ↦ ok b ]

-- `mode & 0o077`
abbrev pub is_shared : ℕ → Bool
is_shared mode = not (eqb (mode % 64) 0)

-- the lease whose validation stands for that of the transaction's fields
unfoldable pub probe_lease : RunnerStart → String → Instant → Lease
probe_lease t revision now = record {
  lease_id = t.lease_id;
  generation = t.generation;
  nonce = t.nonce;
  node_id = t.node_id;
  owner_task = t.owner_task;
  owner_thread = t.owner_thread;
  owner_run = t.owner_run;
  role = some t.role;
  workload_class = t.workload_class;
  priority = pos 0;
  preemptible = member t.workload_class preemptible_workload_classes;
  phase = t.phase;
  acquired_at = t.started_at;
  expires_at = now + 60 * microseconds;
  control_commit = revision;
  admission = record {
    checked_at = t.started_at;
    inventory_age_seconds = pos 0;
    requirements = [];
    min_memory_gb = pos 0;
    gpu_api = "any";
    min_gpu_memory_gb = pos 0;
    gpu_model = none;
    power_ok = true;
    storage_ok = true;
    thermal_ok = true;
    interactive_busy = false;
    busy = false;
    work_volume_ready = true;
  };
  dispatch_adapter = "lease-only";
  worker_binding = none;
}

-- a v1 transaction in the shape of v2
abbrev pub upgraded : RunnerStart → RunnerTransaction
upgraded t = record {
  start = t;
  ttl_seconds = pos 3600;
  renewed_at = t.started_at;
  lease_expires_at = t.started_at + 3600 * microseconds;
}

module _ (is_uuid : String → Bool) where
  unfoldable pub check_start : RunnerStart → String → Instant → Result FleetError (Unit {0})
  check_start t revision now = do
    validate_role (some t.role) true
    validate_lease is_uuid (probe_lease t revision now)
    ok tt

  unfoldable pub read_content :
      TransactionContent → String → Instant → Result FleetError (Option RunnerTransaction)
  read_content (v1 t) revision now = do check_start t revision now; ok (some (upgraded t))
  read_content (v2 t) revision now = do
    check_start t.start revision now
    validate_ttl t.ttl_seconds
    ok (some t)

  -- `revision` is `control_commit()`
  unfoldable pub read_runner_transaction :
      TransactionFile → String → Instant → Result FleetError (Option RunnerTransaction)
  read_runner_transaction missing revision now = ok none
  read_runner_transaction (stored mode content) revision now = do
    raise_if (is_shared mode) transaction_mode
    read_content content revision now

unfoldable pub runner_transaction_from_lease :
    String → RunnerBinding → Lease → ℤ → Result FleetError RunnerTransaction
runner_transaction_from_lease role binding lease ttl_seconds = do
  ttl ← validate_ttl ttl_seconds
  ok (record {
    start = record {
      role = role;
      node_id = lease.node_id;
      repository = binding.repository;
      runner_name = binding.runner_name;
      lease_id = lease.lease_id;
      generation = lease.generation;
      nonce = lease.nonce;
      owner_task = lease.owner_task;
      owner_thread = lease.owner_thread;
      owner_run = lease.owner_run;
      workload_class = lease.workload_class;
      phase = lease.phase;
      started_at = lease.acquired_at;
    };
    ttl_seconds = ttl;
    renewed_at = lease.acquired_at;
    lease_expires_at = lease.expires_at;
  })

-- the lease that a transaction names
abbrev pub credential_of : RunnerTransaction → Credential
credential_of t = record {
  node_id = t.start.node_id;
  lease_id = t.start.lease_id;
  generation = t.start.generation;
  nonce = t.start.nonce;
  owner_task = t.start.owner_task;
}

-- the transaction after a renewal of its lease
abbrev pub renewed_transaction : RunnerTransaction → Lease → ℤ → Instant → RunnerTransaction
renewed_transaction t renewed ttl_seconds renewed_at = record t {
  start = record t.start { generation = renewed.generation; nonce = renewed.nonce };
  ttl_seconds = ttl_seconds;
  renewed_at = renewed_at;
  lease_expires_at = renewed.expires_at;
}
