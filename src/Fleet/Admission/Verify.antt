-- ===== src/Fleet/Admission/Verify.antt =====
-- `verify_lease_record` of fleet_runner.py: a lease against what its user expects of it.
use opl_flow.Base.{
  String, Bool, true, false, not, ◌&&◌, ◌||◌, ◌==◌, Option, none, some, List, [], ◌∷◌, ◌++◌, member,
  texts_eq, sorted_set, is_empty, if◌then◌else◌, ok, raise_if, ◌>>=◌, ◌>>◌,
}
use opl_flow.Base.Results.{Result}
use opl_flow.Base.Int.{ℤ, pos, ltb_ℤ, leb_ℤ, eqb_ℤ}
use opl_flow.Fleet.Common.{
  FleetError, expectation_invalid, freshness_invalid, gpu_requirement_invalid,
  control_commit_invalid, verification_failed, lease_workload_classes, lease_phases, gpu_apis,
  is_commit, normalize_node_id, dispatch_adapter,
}
use opl_flow.Fleet.Lease.Data.{Instant, Lease, seconds_from}
use opl_flow.Fleet.Lease.Validate.{validate_lease, validate_role, validate_owner_id}
use opl_flow.Fleet.Lease.Store.{PublicLease, public_lease}
use opl_flow.Fleet.Admission.Checks.{Check, failing, distinct_words}
use opl_flow.Fleet.Admission.Roles.{NodeRegistry, assert_runner_role_node}

-- The arguments of `verify_lease_record`, but for the lease, the registry and the clock reading.
pub record Expectation : Type 0 where
  pub node_id : String
  pub role : Option String
  pub lease_id : String
  pub generation : ℤ
  pub owner_task : String
  pub owner_thread : Option String
  pub owner_run : Option String
  pub workload_class : String
  pub phase : String
  pub preemptible : Bool
  pub min_ttl_seconds : ℤ
  pub required : List String
  pub min_memory_gb : ℤ
  pub max_admission_age_seconds : ℤ
  pub expected_control_commit : String
  pub current_control_commit : String
  pub gpu_api : String
  pub min_gpu_memory_gb : ℤ
  pub gpu_model : Option String
  pub expected_dispatch_adapter : String

-- the expected identifiers in their normal form
pub record Named : Type 0 where
  pub node_id : String
  pub role : Option String
  pub owner_task : Option String
  pub owner_thread : Option String
  pub owner_run : Option String

-- an equality of two values that may be `None`
unfoldable pub same_option : Option String → Option String → Bool
same_option none none = true
same_option (some s) (some t) = s == t
same_option _ _ = false

-- `1 <= seconds <= 86_400`
abbrev pub is_day_bound : ℤ → Bool
is_day_bound z = leb_ℤ (pos 1) z && leb_ℤ z (pos 86400)

-- the role is one whose nodes the registry lists, if there is one
unfoldable pub role_on_node :
    Option String → String → NodeRegistry → Result FleetError (Option String)
role_on_node none node_id registry = ok none
role_on_node (some role) node_id registry = do
  allowed ← assert_runner_role_node role node_id registry
  ok (some allowed)

unfoldable pub named_expectation : Expectation → NodeRegistry → Result FleetError Named
named_expectation q registry = do
  node_id ← normalize_node_id q.node_id
  normalized ← validate_role q.role false
  role ← role_on_node normalized node_id registry
  owner_task ← validate_owner_id (some q.owner_task) true
  owner_thread ← validate_owner_id q.owner_thread false
  owner_run ← validate_owner_id q.owner_run false
  ok (record {
    node_id = node_id;
    role = role;
    owner_task = owner_task;
    owner_thread = owner_thread;
    owner_run = owner_run;
  })

-- the tests of the expectation itself
unfoldable pub check_expectation : Expectation → Result FleetError (Unit {0})
check_expectation q = do
  raise_if
      (not (member q.workload_class lease_workload_classes) || not (member q.phase lease_phases))
      expectation_invalid
  raise_if
      (not (is_day_bound q.min_ttl_seconds)
        || not (is_day_bound q.max_admission_age_seconds)
        || ltb_ℤ q.min_memory_gb (pos 0))
      freshness_invalid
  raise_if (not (member q.gpu_api gpu_apis) || ltb_ℤ q.min_gpu_memory_gb (pos 0))
      gpu_requirement_invalid
  dispatch_adapter q.expected_dispatch_adapter
  raise_if (not (is_commit q.expected_control_commit) || not (is_commit q.current_control_commit))
      control_commit_invalid

-- the fields of the lease, in the order of the dict `expected`
abbrev pub identity_checks : Lease → Expectation → Named → List Check
identity_checks l q n =
    (not (l.node_id == n.node_id), "node_id")
    ∷ (not (same_option l.role n.role), "role")
    ∷ (not (l.lease_id == q.lease_id), "lease_id")
    ∷ (not (eqb_ℤ (pos l.generation) q.generation), "generation")
    ∷ (not (same_option (some l.owner_task) n.owner_task), "owner_task")
    ∷ (not (same_option l.owner_thread n.owner_thread), "owner_thread")
    ∷ (not (same_option l.owner_run n.owner_run), "owner_run")
    ∷ (not (l.workload_class == q.workload_class), "workload_class")
    ∷ (not (l.phase == q.phase), "phase")
    ∷ ((if l.preemptible then not q.preemptible else q.preemptible), "preemptible")
    ∷ (not (l.control_commit == q.expected_control_commit), "control_commit")
    ∷ (not (l.dispatch_adapter == q.expected_dispatch_adapter), "dispatch_adapter")
    ∷ (not (q.current_control_commit == q.expected_control_commit), "controller-currentness")
    ∷ []

-- the time that is left, and the admission on which the lease was given
abbrev pub freshness_checks : Lease → Expectation → Instant → List Check
freshness_checks l q now =
    let a = l.admission in
    let age = seconds_from a.checked_at now in
    (ltb_ℤ (seconds_from now l.expires_at) q.min_ttl_seconds, "ttl")
    ∷ (not (leb_ℤ (pos 0) age && leb_ℤ age q.max_admission_age_seconds), "admission-freshness")
    ∷ (not (texts_eq a.requirements (sorted_set q.required)), "requirements")
    ∷ (not (eqb_ℤ a.min_memory_gb q.min_memory_gb), "memory")
    ∷ (not (a.gpu_api == q.gpu_api), "gpu-api")
    ∷ (not (eqb_ℤ a.min_gpu_memory_gb q.min_gpu_memory_gb), "gpu-memory")
    ∷ (not (same_option a.gpu_model q.gpu_model), "gpu-model")
    ∷ (
      not (a.power_ok && a.storage_ok && a.thermal_ok && a.work_volume_ready),
      "admission-conclusions",
    )
    ∷ (a.interactive_busy || a.busy, "admission-occupancy")
    ∷ []

-- The dict that a verification returns, without its constants.
pub record Verification : Type 0 where
  pub observed_at : Instant
  pub control_commit : String
  pub lease : PublicLease

module _ (is_uuid : String → Bool) where
  unfoldable pub verify_lease_record :
      Lease → Expectation → NodeRegistry → Instant → Result FleetError Verification
  verify_lease_record l q registry now = do
    validated ← validate_lease is_uuid l
    named ← named_expectation q registry
    check_expectation q
    let failures =
        failing (identity_checks validated q named) ++ failing (freshness_checks validated q now)
    raise_if (not (is_empty failures)) (verification_failed (distinct_words failures))
    ok (record {
      observed_at = now;
      control_commit = q.current_control_commit;
      lease = public_lease (some validated) now;
    })
