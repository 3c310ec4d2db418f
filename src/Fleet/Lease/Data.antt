-- ===== src/Fleet/Lease/Data.antt =====
-- The data of fleet_lease.py. A JSON object whose fields have the types that the validators ask
-- for is a record. An instant is the number of microseconds since a fixed moment: it stands for
-- the text that `isoformat` writes and `parse_utc` reads back.
use opl_flow.Base.{ℕ, String, Bool, Option, List, [], ◌-◌, ◌/◌, leb, if◌then◌else◌}
use opl_flow.Base.Int.{ℤ, pos, sub_ℕ}
use opl_flow.Base.Dict.{Dict}

abbrev pub Instant : Type 0
Instant = ℕ

abbrev pub microseconds : ℕ
microseconds = 1000000

-- `int((a - b).total_seconds())`, which rounds towards zero
unfoldable pub seconds_from : Instant → Instant → ℤ
seconds_from b a =
    if leb b a then pos ((a - b) / microseconds) else sub_ℕ 0 ((b - a) / microseconds)

-- `ADMISSION_FIELDS` and `ADMISSION_OPTIONAL_FIELDS`
pub record Admission : Type 0 where
  pub checked_at : Instant
  pub inventory_age_seconds : ℤ
  pub requirements : List String
  pub min_memory_gb : ℤ
  pub gpu_api : String
  pub min_gpu_memory_gb : ℤ
  pub gpu_model : Option String
  pub power_ok : Bool
  pub storage_ok : Bool
  pub thermal_ok : Bool
  pub interactive_busy : Bool
  pub busy : Bool
  pub work_volume_ready : Bool

pub record WorkerBinding : Type 0 where
  pub attempt_id : String
  pub objective_id : String
  pub owner_id : String
  pub handoff_sha256 : String

-- `LEASE_FIELDS` and `LEASE_OPTIONAL_FIELDS`
pub record Lease : Type 0 where
  pub lease_id : String
  pub generation : ℕ
  pub nonce : String
  pub node_id : String
  pub owner_task : String
  pub owner_thread : Option String
  pub owner_run : Option String
  pub role : Option String
  pub workload_class : String
  pub priority : ℤ
  pub preemptible : Bool
  pub phase : String
  pub acquired_at : Instant
  pub expires_at : Instant
  pub control_commit : String
  pub admission : Admission
  pub dispatch_adapter : String
  pub worker_binding : Option WorkerBinding

pub record AuditEvent : Type 0 where
  pub event : String
  pub at : Instant
  pub node_id : String
  pub lease_id : String
  pub generation : ℕ
  pub reason : String

pub record LeaseStore : Type 0 where
  pub schema : String
  pub generation : ℕ
  pub leases : Dict Lease
  pub audit : List AuditEvent

-- The file `controller/leases.json`: not there, or its mode bits and its content.
pub data StoreFile : Type 0 where
  missing : StoreFile
  stored : ℕ → LeaseStore → StoreFile

abbrev pub empty_lease_store : LeaseStore
empty_lease_store = record {
  schema = "codex_fleet_leases.v2";
  generation = 0;
  leases = [];
  audit = [];
}
