-- ===== src/Fleet/Lease/Requests.antt =====
-- The requests of fleet_lease.py, the lease that `build_lease` makes for one, and what becomes of the
-- lease that the node has. A clock reading is an argument, and so are a drawn id and nonce.
use Prim.Native.String as Str
use opl_flow.Base.{
  ℕ, String, Bool, true, false, not, ◌&&◌, ◌||◌, Option, none, some, ◌==◌, ◌+◌, ◌*◌, member, eqb,
  ok, raise_if, ◌>>=◌, ◌>>◌, is_some,
}
use opl_flow.Base.Results.{Result}
use opl_flow.Base.Int.{ℤ, pos_part, leb_ℤ}
use opl_flow.Base.Dict.{erase}
use opl_flow.Base.Text.{int_text}
use opl_flow.Fleet.Common.{
  FleetError, node_already_leased, cas_mismatch, not_preemptible, preemptible_workload_classes,
  normalize_node_id,
}
use opl_flow.Fleet.Lease.Data.{Instant, Admission, WorkerBinding, Lease, LeaseStore, microseconds}
use opl_flow.Fleet.Lease.Validate.{validate_owner_id, validate_role, validate_ttl, validate_lease}
use opl_flow.Fleet.Lease.Store.{audit_lease}

-- The arguments of `acquire_lease_record`, with the values that `build_lease` draws.
pub record AcquireRequest : Type 0 where
  pub node_id : String
  pub owner_task : String
  pub owner_thread : Option String
  pub owner_run : Option String
  pub role : Option String
  pub workload_class : String
  pub priority : ℤ
  pub preemptible : Bool
  pub phase : String
  pub ttl_seconds : ℤ
  pub control_revision : String
  pub admission : Admission
  pub preempt_lease_id : Option String
  pub preempt_generation : Option ℕ
  pub preempt_nonce : Option String
  pub dispatch_adapter_name : String
  pub worker_binding : Option WorkerBinding
  pub drawn_id : String
  pub drawn_nonce : String

-- The lease that a caller names, to renew or to release it.
pub record Credential : Type 0 where
  pub node_id : String
  pub lease_id : String
  pub generation : ℕ
  pub nonce : String
  pub owner_task : String

abbrev pub deadline : Instant → ℤ → Instant
deadline now ttl = now + pos_part ttl * microseconds

-- a validated text that is required is there
abbrev pub text_or : Option String → String
text_or none = ""
text_or (some s) = s

-- the dict that `build_lease` makes
unfoldable pub lease_fields : AcquireRequest → ℕ → Instant → Result FleetError Lease
lease_fields r generation now = do
  node_id ← normalize_node_id r.node_id
  owner_task ← validate_owner_id (some r.owner_task) true
  owner_thread ← validate_owner_id r.owner_thread false
  owner_run ← validate_owner_id r.owner_run false
  role ← validate_role r.role false
  ttl ← validate_ttl r.ttl_seconds
  ok (record {
    lease_id = r.drawn_id;
    generation = generation;
    nonce = r.drawn_nonce;
    node_id = node_id;
    owner_task = text_or owner_task;
    owner_thread = owner_thread;
    owner_run = owner_run;
    role = role;
    workload_class = r.workload_class;
    priority = r.priority;
    preemptible = r.preemptible;
    phase = r.phase;
    acquired_at = now;
    expires_at = deadline now ttl;
    control_commit = r.control_revision;
    admission = r.admission;
    dispatch_adapter = r.dispatch_adapter_name;
    worker_binding = r.worker_binding;
  })

unfoldable pub build_lease :
    (String → Bool) → AcquireRequest → ℕ → Instant → Result FleetError Lease
build_lease is_uuid r generation now = do
  lease ← lease_fields r generation now
  validate_lease is_uuid lease

-- the three parts that name the lease to preempt are all given
abbrev pub names_all : AcquireRequest → Bool
names_all r = is_some r.preempt_lease_id && is_some r.preempt_generation && is_some r.preempt_nonce

abbrev pub names_any : AcquireRequest → Bool
names_any r = is_some r.preempt_lease_id || is_some r.preempt_generation || is_some r.preempt_nonce

abbrev pub same_text : String → Option String → Bool
same_text s none = false
same_text s (some t) = s == t

abbrev pub same_number : ℕ → Option ℕ → Bool
same_number n none = false
same_number n (some m) = eqb n m

unfoldable pub matches_preempt : Lease → AcquireRequest → Bool
matches_preempt current r =
    same_text current.lease_id r.preempt_lease_id
    && same_number current.generation r.preempt_generation
    && same_text current.nonce r.preempt_nonce

unfoldable pub is_preemptible_by : Lease → ℤ → Bool
is_preemptible_by current priority =
    current.preemptible
    && member current.workload_class preemptible_workload_classes
    && current.phase == "interruptible"
    && not (leb_ℤ priority current.priority)

-- what becomes of the lease that the node has, before the new one is built
unfoldable pub make_room :
    AcquireRequest → String → Instant → LeaseStore → Option Lease → Result FleetError LeaseStore
make_room r node_id now s none = do raise_if (names_any r) cas_mismatch; ok s
make_room r node_id now s (some current) = do
  raise_if (not (names_all r)) node_already_leased
  raise_if (not (matches_preempt current r)) cas_mismatch
  raise_if (not (is_preemptible_by current r.priority)) not_preemptible
  ok (
      audit_lease (record s { leases = erase node_id s.leases }) "preempt" current now
        (Str.◌++◌ "higher-priority-" (int_text r.priority)))
