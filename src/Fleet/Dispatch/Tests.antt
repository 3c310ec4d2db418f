-- ===== src/Fleet/Dispatch/Tests.antt =====
-- The selection of a node, a dispatch and a session at concrete values.
use mathlib.Core.List.{Memᴰ}
use opl_flow.Base.{
  ℕ, String, Bool, true, false, ◌≡◌, ◌↔◌, ◌≢◌, refl, Option, none, some, List, [], ◌∷◌, ◌==◌, eqb,
  if◌then◌else◌, ok, err, member, subset, texts_eq, sorted_set, insert_sorted, last_n,
}
use opl_flow.Base.Results.{Result}
use opl_flow.Base.Int.{pos}
use opl_flow.Base.Dict.{lookup, insert, erase}
use opl_flow.Base.Text.{
  is_slug, is_slug_or_dash, is_hex, is_space, is_blank, is_hex_of, lstrip, rstrip, strip, take,
  lower, lower_char, has_pair, chars, starts_with, contains,
}
use opl_flow.Json.{
  Value, num, flag, text, arr, obj, no_element, element, no_field, field, get_field, field_names,
  get, has_exactly, is_text_at,
}
use opl_flow.Execution.{validate_handoff, handoff_binding}
use opl_flow.Fleet.Common.{
  FleetError, is_node_id, is_owner_id, is_role, is_commit, dash_runs, is_path_like, node_slug,
  normalize_node_id, dispatch_adapter, no_fresh_admission, dispatch_priority, not_a_time,
}
use opl_flow.Fleet.Lease.Data.{Instant, Lease, StoreFile, missing, empty_lease_store, seconds_from}
use opl_flow.Fleet.Lease.Validate.{
  validate_owner_id, validate_role, validate_ttl, is_requirement, is_bad_model, validate_admission,
  check_binding, check_node_id, bad_policy, unprotected, validate_lease, validate_items,
  validate_lease_store, validate_audit, validate_event,
}
use opl_flow.Fleet.Lease.Store.{
  upgrade, read_lease_store, write_lease_store, lease_is_expired, audit_lease, reap_one, reap_items,
  reap_expired_leases, active_items, active_lease_map, lease_view, public_lease,
}
use opl_flow.Fleet.Lease.Requests.{
  lease_fields, build_lease, matches_preempt, is_preemptible_by, make_room,
}
use opl_flow.Fleet.Lease.Records.{
  acquire_in, acquire_lease_record, assert_lease_cas, release_in, release_lease_record,
  normalize_option,
}
use opl_flow.Fleet.Admission.Checks.{failing, first_of_each, distinct_words}
use opl_flow.Fleet.Admission.Roles.{
  NodeRegistry, runner_role_nodes, assert_runner_role_node, assert_runner_role_workload,
}
use opl_flow.Fleet.Admission.Doctor.{
  DoctorReadback, is_ssh_only, matches_gpu, assert_lease_admission, build_admission_receipt,
}
use opl_flow.Fleet.Admission.Verify.{
  same_option, role_on_node, named_expectation, check_expectation, verify_lease_record,
}
use opl_flow.Fleet.Runner.Control.{RunnerRoute, is_ssh_alias}
use opl_flow.Fleet.Features.{
  Inventory, CatalogEntry, inventory_age_seconds, inventory_is_fresh, profiles, gpu_profiles,
  matching, matching_gpus, policy_features, apis_of, baseline_features, software_features,
  inventory_features, node_features,
}
use opl_flow.Fleet.Selection.{
  Selected, is_ready, has_gpu, select_entry, select_entries, insert_by_id, sort_by_id, select_nodes,
}
use opl_flow.Fleet.Selection.Exact.{IsEligible, select_nodes-IsEligible}
use opl_flow.Fleet.Dispatch.Words.{split_commas, join_commas, stripped_words, parse_requirements}
use opl_flow.Fleet.Dispatch.Requirements.{
  not_given, given, texts_in, requires_of, text_or_default, number_or_default, model_of,
  flag_or_false, check_fields, validate_execution_requirements, read_execution_requirements,
}
use opl_flow.Fleet.Dispatch.Request.{
  DispatchArgs, Request, metadata_of, worker_handoff, binding_of, required_of, check_runner_role,
  check_values, placed, dispatch_request,
}
use opl_flow.Fleet.Dispatch.Candidates.{
  Catalog, keep, on_role, last_entry, remote_ready, dispatch_candidates, dispatch_plan_payload,
  plan_exit, requirement_of,
}
use opl_flow.Fleet.Dispatch.Acquire.{
  AcquireArgs, candidate_role, admission_view, admit, first_admitted, acquire_request,
  fleet_acquire, fleet_dispatch_acquire, lease_of_id, dispatch_lease, fleet_dispatch_release,
}
use opl_flow.Fleet.Dispatch.Session.{
  TimeReading, instant, no_time, Execution, unknown, Transport, Invocation, session_invocation,
  timeout_expired, completed, argv_items, validate_execution_argv, validate_execution_result,
  read_transport, execute_ssh_session,
}
use opl_flow.Fleet.Dispatch.Execute.{
  ExecuteArgs, minimum_ttl, check_owners, fleet_dispatch_verify, execution_lease,
  fleet_dispatch_execute,
}
use opl_flow.Fleet.Dispatch.Bounded.{IsBounded, dispatch_request-IsBounded}
use opl_flow.Fleet.Dispatch.Acquired.{Acquires, fleet_dispatch_acquire-Acquires}
use opl_flow.Fleet.Dispatch.Executed.{RunsUnder, RunsAt, fleet_dispatch_execute-RunsUnder}

-- unfolds all that a dispatch calls
unfoldable dispatch_code : Unit {0}
unfolding member texts_eq sorted_set insert_sorted subset lookup insert erase last_n is_slug
    is_slug_or_dash is_hex is_space is_blank is_hex_of lstrip rstrip strip take lower lower_char
    has_pair starts_with contains get_field field_names get has_exactly is_text_at validate_handoff
    handoff_binding is_node_id is_owner_id is_role is_commit dash_runs is_path_like node_slug
    normalize_node_id dispatch_adapter seconds_from validate_owner_id validate_role validate_ttl
    is_requirement is_bad_model validate_admission check_binding check_node_id bad_policy
    unprotected validate_lease validate_items validate_audit validate_event validate_lease_store
    upgrade read_lease_store write_lease_store lease_is_expired audit_lease reap_one reap_items
    reap_expired_leases active_items active_lease_map lease_view public_lease lease_fields
    build_lease matches_preempt is_preemptible_by make_room acquire_in acquire_lease_record
    assert_lease_cas release_in release_lease_record normalize_option failing first_of_each
    distinct_words runner_role_nodes assert_runner_role_node assert_runner_role_workload is_ssh_only
    matches_gpu assert_lease_admission build_admission_receipt same_option role_on_node
    named_expectation check_expectation verify_lease_record is_ssh_alias inventory_age_seconds
    inventory_is_fresh profiles gpu_profiles matching matching_gpus policy_features apis_of
    baseline_features software_features inventory_features node_features is_ready has_gpu
    select_entry select_entries insert_by_id sort_by_id select_nodes split_commas join_commas
    stripped_words parse_requirements texts_in requires_of text_or_default number_or_default
    model_of flag_or_false check_fields validate_execution_requirements read_execution_requirements
    metadata_of worker_handoff binding_of required_of check_runner_role check_values placed
    dispatch_request keep on_role last_entry remote_ready dispatch_candidates dispatch_plan_payload
    plan_exit candidate_role admission_view admit first_admitted acquire_request fleet_acquire
    fleet_dispatch_acquire lease_of_id dispatch_lease fleet_dispatch_release argv_items
    validate_execution_argv validate_execution_result read_transport session_invocation
    execute_ssh_session minimum_ttl check_owners fleet_dispatch_verify execution_lease
    fleet_dispatch_execute
dispatch_code = tt

-- stands for `uuid.UUID` on the ids of these examples
abbrev sample_uuid : String → Bool
sample_uuid s = eqb (chars s) 36

-- stands for `str(uuid.UUID(text))` on the ids of these examples
abbrev sample_canonical : String → Option String
sample_canonical s = if sample_uuid s then some s else none

-- stands for `str.casefold` on the lower-case names of these examples
abbrev sample_casefold : String → String
sample_casefold s = s

-- stand for the sizes of the short values of these examples, and for their digest
abbrev sample_size : Value → ℕ
sample_size v = 100

abbrev sample_fingerprint : Value → String
sample_fingerprint v = "0123456789abcdef0123456789abcdef0123456789abcdef0123456789abcdef"

abbrev sample_commit : String
sample_commit = "0123456789abcdef0123456789abcdef01234567"

abbrev sample_registry : NodeRegistry
sample_registry = record { runner_roles = []; runner_role_workloads = [] }

abbrev sample_inventory : Inventory
sample_inventory = record {
  observed_at = 1000000;
  system = "linux";
  kind = some "bare";
  architecture = none;
  memory_bytes = some 34359738368;
  gpus = record { name = some "rtx 4090"; model = none; memory = some 25769803776 } ∷ [];
  baseline = ("ssh", record { ready = true; online = false; installed = false }) ∷ [];
  software = ("python", true) ∷ [];
  virtualization = record {
    hypervisor_ready = false;
    hyper_v_present = false;
    broker_available = false;
    broker_system_owned = false;
  };
  remote_control = none;
}

abbrev entry_named : String → CatalogEntry
entry_named id = record {
  node_id = id;
  approved = true;
  display_name = none;
  labels = [];
  receipt_state = some "CURRENT";
  inventory = some sample_inventory;
}

-- the second in the order of ids stands first
abbrev sample_nodes : List CatalogEntry
sample_nodes = entry_named "node-b" ∷ entry_named "node-a" ∷ []

abbrev sample_catalog : Catalog
sample_catalog = record {
  nodes = sample_nodes;
  max_age_hours = pos 36;
  clock = λ e. 2000000;
  registry = sample_registry;
  store = missing;
  leases_at = 2000000;
}

abbrev sample_args : DispatchArgs
sample_args = record {
  handoff = not_given;
  requirements = given (
      obj (
        field "schema" (text "opl_execution_requirements.v1") (
          field "requires" (arr (element (text "python") no_element))
            (field "ttl_seconds" (num (pos 600)) no_field))));
  owner_task = some "bd-12";
  adapter = some "ssh-session";
  requires = none;
  min_memory_gb = some (pos 8);
  gpu_api = some "cuda";
  min_gpu_memory_gb = none;
  gpu_model = none;
  workload_class = none;
  priority = none;
  preemptible = none;
  phase = none;
  ttl_seconds = none;
  role = none;
  node_id = none;
}

abbrev sample_request : Request
sample_request = record {
  adapter = "ssh-session";
  worker_binding = none;
  metadata = record {
    status = "supported";
    requires_fleet = true;
    execution = "controlled-ssh-session";
  };
  requires = "cuda" ∷ "gpu" ∷ "python" ∷ [];
  min_memory_gb = pos 8;
  gpu_api = "cuda";
  min_gpu_memory_gb = pos 0;
  gpu_model = none;
  workload_class = "background";
  priority = pos 300;
  preemptible = false;
  phase = "interruptible";
  ttl_seconds = pos 600;
  role = none;
  node_id = none;
}

dispatch_request-IsBounded_example : IsBounded sample_request
unfolding dispatch_code
dispatch_request-IsBounded_example =
    dispatch_request-IsBounded sample_size sample_fingerprint sample_args sample_registry
      sample_request refl

too_urgent :
    dispatch_request sample_size sample_fingerprint
      (record sample_args { priority = some (pos 1001) })
      sample_registry
    ≡ err dispatch_priority
unfolding dispatch_code
too_urgent = refl

abbrev picked : Result FleetError (List Selected) → List Selected
picked (ok xs) = xs
picked (err e) = []

abbrev sample_selection : List Selected
sample_selection = picked (
    select_nodes sample_casefold sample_nodes (requirement_of sample_request) (pos 36)
      (λ e. 2000000) [])

abbrev node_ids : List Selected → List String
node_ids [] = []
node_ids (x ∷ xs) = x.node_id ∷ node_ids xs

selection_ids : node_ids sample_selection ≡ "node-a" ∷ "node-b" ∷ []
unfolding dispatch_code
selection_ids = refl

abbrev first_picked : List Selected → Selected
first_picked [] = record {
  node_id = "";
  display_name = none;
  features = [];
  memory_bytes = none;
  gpus = [];
  inventory_observed_at = 0;
}
first_picked (x ∷ xs) = x

abbrev sample_selected : Selected
sample_selected = first_picked sample_selection

select_nodes-IsEligible_example : Memᴰ sample_selected sample_selection ↔ (
    (entry : CatalogEntry) × Memᴰ entry sample_nodes
    × IsEligible sample_casefold
        (requirement_of sample_request)
        (pos 36)
        2000000
        []
        entry
        sample_selected)
unfolding dispatch_code
select_nodes-IsEligible_example =
    select_nodes-IsEligible sample_casefold (requirement_of sample_request) (pos 36) (λ e. 2000000)
      [] sample_nodes sample_selection sample_selected refl

abbrev sample_doctor : DoctorReadback
sample_doctor = record {
  checked_at = 2000000;
  inventory_age_seconds = pos 1;
  approved = true;
  receipt_state = some "CURRENT";
  control_current = some true;
  inventory_fresh = true;
  codex_ready = true;
  ssh_reachable = some true;
  tailscale_online = some true;
  power_ok = some true;
  storage_ok = some true;
  thermal_ok = some true;
  interactive_busy = some false;
  busy = some false;
  work_volume_ready = some true;
  features = "cuda" ∷ "gpu" ∷ "python" ∷ "ssh" ∷ [];
  memory_bytes = pos 34359738368;
  gpus = record { name = "rtx 4090"; apis = "cuda" ∷ []; memory_bytes = pos 25769803776 } ∷ [];
  admission_ready = true;
}

-- the first candidate is in use
abbrev sample_doctors : String → Result FleetError DoctorReadback
sample_doctors id =
    ok (if id == "node-a" then record sample_doctor { busy = some true } else sample_doctor)

abbrev sample_acquire : AcquireArgs
sample_acquire = record {
  owner_task = "bd-12";
  owner_thread = none;
  owner_run = none;
  preempt_lease_id = none;
  preempt_generation = none;
  preempt_nonce = none;
  revision = sample_commit;
  drawn_id = "11111111-2222-3333-4444-555555555555";
  drawn_nonce = "00112233445566778899aabbccddeeff";
  acquired_at = 3000000;
}

abbrev acquired : Result FleetError (Option Lease × StoreFile)
acquired =
    fleet_dispatch_acquire sample_uuid sample_casefold sample_request sample_acquire sample_catalog
      sample_doctors missing

abbrev acquired_lease : Lease
acquired_lease = record {
  lease_id = "11111111-2222-3333-4444-555555555555";
  generation = 1;
  nonce = "00112233445566778899aabbccddeeff";
  node_id = "node-b";
  owner_task = "bd-12";
  owner_thread = none;
  owner_run = none;
  role = none;
  workload_class = "background";
  priority = pos 300;
  preemptible = false;
  phase = "interruptible";
  acquired_at = 3000000;
  expires_at = 603000000;
  control_commit = sample_commit;
  admission = record {
    checked_at = 2000000;
    inventory_age_seconds = pos 1;
    requirements = "cuda" ∷ "gpu" ∷ "python" ∷ [];
    min_memory_gb = pos 8;
    gpu_api = "cuda";
    min_gpu_memory_gb = pos 0;
    gpu_model = none;
    power_ok = true;
    storage_ok = true;
    thermal_ok = true;
    interactive_busy = false;
    busy = false;
    work_volume_ready = true;
  };
  dispatch_adapter = "ssh-session";
  worker_binding = none;
}

abbrev file_of : Result FleetError (Option Lease × StoreFile) → StoreFile
file_of (ok (l, file)) = file
file_of (err e) = missing

abbrev acquired_file : StoreFile
acquired_file = file_of acquired

fleet_dispatch_acquire-Acquires_example :
    Acquires sample_casefold sample_request sample_catalog sample_doctors sample_uuid
      empty_lease_store acquired_lease acquired_file
unfolding dispatch_code
fleet_dispatch_acquire-Acquires_example =
    fleet_dispatch_acquire-Acquires sample_casefold sample_request sample_catalog sample_doctors
      sample_uuid sample_acquire missing acquired_file empty_lease_store acquired_lease refl tt refl

no_node_is_free :
    fleet_dispatch_acquire sample_uuid sample_casefold sample_request sample_acquire sample_catalog
      (λ id. ok (record sample_doctor { busy = some true }))
      missing
    ≡ err no_fresh_admission
unfolding dispatch_code
no_node_is_free = refl

abbrev sample_execute : ExecuteArgs
sample_execute = record {
  handoff = not_given;
  dispatch_id = "11111111-2222-3333-4444-555555555555";
  owner_task = "bd-12";
  owner_thread = none;
  owner_run = none;
  min_ttl_seconds = pos 60;
  max_admission_age_seconds = pos 300;
  timeout_seconds = pos 120;
  argv_json = some (arr (element (text "make") (element (text "test") no_element)));
  cwd = none;
}

abbrev sample_routes : String → RunnerRoute
sample_routes id = record { local = false; ssh = some "studio"; control = none }

abbrev sample_time : Option Value → TimeReading
sample_time v = instant

abbrev sample_result : Value
sample_result = obj (
    field "schema" (text "codex_fleet_ssh_execution_result.v1") (
      field "started_at" (text "2026-01-01T00:00:00+00:00") (
        field "finished_at" (text "2026-01-01T00:01:00+00:00") (
          field "exit_code" (num (pos 0)) (
            field "timed_out" (flag false) (
              field "stdout" (text "ok") (
                field "stderr" (text "") (
                  field "stdout_truncated" (flag false)
                    (field "stderr_truncated" (flag false) no_field)))))))))

abbrev run_session :
    ExecuteArgs
    → (Option Value → TimeReading)
    → Instant
    → Transport
    → Option Invocation × Result FleetError (Lease × List String × Execution)
run_session a time now transport =
    fleet_dispatch_execute sample_uuid sample_canonical sample_registry chars sample_size
      sample_fingerprint time a sample_commit now sample_routes (λ i. transport) acquired_file

abbrev sample_invocation : Invocation
sample_invocation = record {
  host = some "studio";
  argv = "make" ∷ "test" ∷ [];
  cwd = sample_execute.cwd;
  timeout_seconds = sample_execute.timeout_seconds;
}

abbrev sample_session : Option Invocation × Result FleetError (Lease × List String × Execution)
sample_session =
    run_session sample_execute sample_time 4000000 (completed (pos 0) (some sample_result))

fleet_dispatch_execute-RunsUnder_example :
    (l : Lease) × RunsUnder sample_uuid sample_canonical sample_size sample_fingerprint
      sample_execute sample_commit 4000000 acquired_file l
    × RunsAt sample_uuid sample_canonical sample_registry chars sample_size sample_fingerprint
        sample_time sample_execute sample_routes
        (λ i. completed (pos 0) (some sample_result))
        l
        sample_invocation
        sample_session.1
unfolding dispatch_code
fleet_dispatch_execute-RunsUnder_example =
    fleet_dispatch_execute-RunsUnder sample_uuid sample_canonical sample_registry chars sample_size
      sample_fingerprint sample_time sample_execute sample_commit 4000000 sample_routes
      (λ i. completed (pos 0) (some sample_result)) acquired_file sample_invocation sample_session.1
      refl

-- a process that does not answer in time leaves the session unknown
session_lost : run_session sample_execute sample_time 4000000 timeout_expired ≡ (
  some sample_invocation,
  ok (acquired_lease, "make" ∷ "test" ∷ [], unknown "ssh-controller-timeout" none),
)
unfolding dispatch_code
session_lost = refl

-- a result whose times are no times is no unknown session: the error of the parser goes on
session_not_a_time :
    run_session sample_execute (λ v. no_time) 4000000 (completed (pos 0) (some sample_result))
    ≡ (some sample_invocation, err not_a_time)
unfolding dispatch_code
session_not_a_time = refl

released_is_free :
    file_of
      (elim (fleet_dispatch_release sample_uuid sample_canonical
        "11111111-2222-3333-4444-555555555555" "bd-12" 5000000 acquired_file) [
          | ok (l, file) ↦ ok (some l, file)
          | err e ↦ err e
        ])
    ≢ missing
unfolding dispatch_code
released_is_free h = cc
