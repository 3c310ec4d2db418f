-- ===== src/Fleet/Dispatch/Request.antt =====
-- `dispatch_request` of fleet_dispatch.py, with `worker_handoff`, and the table of the adapters.
use opl_flow.Base.{
  ℕ, String, Bool, true, false, not, ◌&&◌, ◌||◌, ◌==◌, Option, none, some, List, member, is_some,
  if◌then◌else◌, ok, err, raise_if, ◌>>=◌, ◌>>◌,
}
use opl_flow.Base.Results.{Result}
use opl_flow.Base.Int.{ℤ, pos, ltb_ℤ, leb_ℤ, eqb_ℤ}
use opl_flow.Json.{Value, as_text, get}
use opl_flow.Execution.{HandoffBinding, text_of, validate_handoff, handoff_binding}
use opl_flow.Fleet.Common.{
  FleetError, handoff_refused, dispatch_owner_mismatch, dispatch_gpu_api, dispatch_gpu_model,
  minimum_memory_negative, minimum_gpu_memory_negative, dispatch_priority, dispatch_workload,
  dispatch_phase, dispatch_workload_preemptible, dispatch_role_required, dispatch_local_node,
  lease_workload_classes, preemptible_workload_classes, lease_phases, gpu_apis, dispatch_adapter,
}
use opl_flow.Fleet.Lease.Data.{WorkerBinding}
use opl_flow.Fleet.Lease.Validate.{is_bad_model, is_unset, validate_role, validate_ttl}
use opl_flow.Fleet.Lease.Records.{normalize_option}
use opl_flow.Fleet.Admission.Roles.{NodeRegistry, runner_role_nodes}
use opl_flow.Fleet.Dispatch.Words.{parse_requirements}
use opl_flow.Fleet.Dispatch.Requirements.{
  Requirements, JsonSource, not_given, unreadable, malformed, given, with_gpu,
  read_execution_requirements,
}

-- An entry of `DISPATCH_ADAPTERS`.
pub record AdapterMetadata : Type 0 where
  pub status : String
  pub requires_fleet : Bool
  pub execution : String

unfoldable pub metadata_of : String → AdapterMetadata
metadata_of adapter =
    if adapter == "local-codex"
    then record {
      status = "supported";
      requires_fleet = false;
      execution = "current-codex-session";
    }
    else if adapter == "lease-only"
    then record {
      status = "supported";
      requires_fleet = true;
      execution = "caller-controlled-after-lease";
    }
    else if adapter == "github-runner"
    then record {
      status = "supported-via-runner-transaction";
      requires_fleet = true;
      execution = "existing-runner-transaction";
    }
    else if adapter == "ssh-session"
    then record {
      status = "supported";
      requires_fleet = true;
      execution = "controlled-ssh-session";
    }
    else record {
      status = "supported-via-native-codex";
      requires_fleet = true;
      execution = "native-codex-thread-after-lease";
    }

-- The arguments of a dispatch command.
pub record DispatchArgs : Type 0 where
  pub handoff : JsonSource
  pub requirements : JsonSource
  pub owner_task : Option String
  pub adapter : Option String
  pub requires : Option String
  pub min_memory_gb : Option ℤ
  pub gpu_api : Option String
  pub min_gpu_memory_gb : Option ℤ
  pub gpu_model : Option String
  pub workload_class : Option String
  pub priority : Option ℤ
  pub preemptible : Option Bool
  pub phase : Option String
  pub ttl_seconds : Option ℤ
  pub role : Option String
  pub node_id : Option String

pub record Request : Type 0 where
  pub adapter : String
  pub worker_binding : Option WorkerBinding
  pub metadata : AdapterMetadata
  pub requires : List String
  pub min_memory_gb : ℤ
  pub gpu_api : String
  pub min_gpu_memory_gb : ℤ
  pub gpu_model : Option String
  pub workload_class : String
  pub priority : ℤ
  pub preemptible : Bool
  pub phase : String
  pub ttl_seconds : ℤ
  pub role : Option String
  pub node_id : Option String

-- `request_value`: the requirements have a value for every name that is asked for
abbrev pub request_value {ℓ} : {A : Type ℓ} → Option A → A → A
request_value none required = required
request_value (some explicit) required = explicit

abbrev pub option_or {ℓ} : {A : Type ℓ} → Option A → Option A → Option A
option_or none required = required
option_or (some explicit) required = some explicit

-- `owner_task not in (None, objective_id)`
abbrev pub is_other_task : Option String → String → Bool
is_other_task none objective = false
is_other_task (some s) objective = not (s == objective)

abbrev pub as_worker_binding : HandoffBinding → WorkerBinding
as_worker_binding b = record {
  attempt_id = b.attempt_id;
  objective_id = b.objective_id;
  owner_id = b.owner_id;
  handoff_sha256 = b.handoff_sha256;
}

-- the values of the request, before its role, its node and its binding are known
abbrev pub requested : DispatchArgs → Requirements → List String → Request
requested a q required =
    let gpu_api = request_value a.gpu_api q.gpu_api in
    let min_gpu_memory_gb = request_value a.min_gpu_memory_gb (pos q.min_gpu_memory_gb) in
    let gpu_model = option_or a.gpu_model q.gpu_model in
    record {
      adapter = request_value a.adapter q.adapter;
      worker_binding = none;
      metadata = metadata_of (request_value a.adapter q.adapter);
      requires =
          with_gpu required gpu_api
            (not (eqb_ℤ min_gpu_memory_gb (pos 0)) || not (is_unset gpu_model));
      min_memory_gb = request_value a.min_memory_gb (pos q.min_memory_gb);
      gpu_api = gpu_api;
      min_gpu_memory_gb = min_gpu_memory_gb;
      gpu_model = gpu_model;
      workload_class = request_value a.workload_class q.workload_class;
      priority = request_value a.priority (pos q.priority);
      preemptible = request_value a.preemptible q.preemptible;
      phase = request_value a.phase q.phase;
      ttl_seconds = request_value a.ttl_seconds (pos q.ttl_seconds);
      role = none;
      node_id = none;
    }

-- the tests of these values, in their order
unfoldable pub check_values : Request → Result FleetError (Unit {0})
check_values r = do
  raise_if (not (member r.gpu_api gpu_apis)) dispatch_gpu_api
  raise_if (ltb_ℤ r.min_memory_gb (pos 0)) minimum_memory_negative
  raise_if (ltb_ℤ r.min_gpu_memory_gb (pos 0)) minimum_gpu_memory_negative
  raise_if (is_bad_model r.gpu_model) dispatch_gpu_model
  raise_if (not (leb_ℤ (pos 0) r.priority && leb_ℤ r.priority (pos 1000))) dispatch_priority
  raise_if (not (member r.workload_class lease_workload_classes)) dispatch_workload
  raise_if (not (member r.phase lease_phases)) dispatch_phase
  validate_ttl r.ttl_seconds
  raise_if (r.preemptible && not (member r.workload_class preemptible_workload_classes))
      dispatch_workload_preemptible

module _ (size : Value → ℕ) (fingerprint : Value → String) where
  unfoldable pub worker_handoff : JsonSource → Option String → Result FleetError (Option Value)
  worker_handoff not_given owner_task = ok none
  worker_handoff unreadable owner_task = err handoff_refused
  worker_handoff malformed owner_task = err handoff_refused
  worker_handoff (given v) owner_task = elim (validate_handoff size fingerprint v) [
    | err e ↦ err handoff_refused
    | ok handoff ↦
        if is_other_task owner_task (text_of (as_text (get "objective_id" handoff)))
        then err dispatch_owner_mismatch
        else ok (some handoff)
  ]

  -- `opl_execution.handoff_binding(handoff)`, if there is a handoff
  unfoldable pub binding_of : Option Value → Result FleetError (Option WorkerBinding)
  binding_of none = ok none
  binding_of (some handoff) = elim (handoff_binding size fingerprint handoff) [
    | err e ↦ err handoff_refused
    | ok b ↦ ok (some (as_worker_binding b))
  ]

  -- `parse_requirements(explicit) if explicit is not None else set(requirements["requires"])`
  unfoldable pub required_of : Option String → List String → Result FleetError (List String)
  required_of none required = ok required
  required_of (some explicit) required = parse_requirements explicit

  -- a role is needed for a GitHub runner, and is one that the registry lists
  unfoldable pub check_runner_role :
      String → Option String → NodeRegistry → Result FleetError (Unit {0})
  check_runner_role adapter role registry =
      if adapter == "github-runner"
      then (elim role [
        | none ↦ err dispatch_role_required
        | some r ↦ (do runner_role_nodes r registry; ok tt)
      ])
      else ok tt

  -- the role and the node of the request
  unfoldable pub placed : DispatchArgs → NodeRegistry → Request → Result FleetError Request
  placed a registry r = do
    role ← validate_role a.role false
    node_id ← normalize_option a.node_id
    check_runner_role r.adapter role registry
    raise_if (r.adapter == "local-codex" && is_some node_id) dispatch_local_node
    ok (record r { role = role; node_id = node_id })

  unfoldable pub dispatch_request : DispatchArgs → NodeRegistry → Result FleetError Request
  dispatch_request a registry = do
    handoff ← worker_handoff a.handoff a.owner_task
    q ← read_execution_requirements size a.requirements
    dispatch_adapter (request_value a.adapter q.adapter)
    required ← required_of a.requires q.requires
    check_values (requested a q required)
    r ← placed a registry (requested a q required)
    binding ← binding_of handoff
    ok (record r { worker_binding = binding })
