-- ===== src/Fleet/Runner/Tests.antt =====
-- Runner transactions at concrete values.
use opl_flow.Base.{
  ℕ, String, Bool, true, false, ◌≡◌, refl, inr, none, some, ◌≤◌, arith, ok, err, List, [], ◌∷◌,
}
use opl_flow.Base.Results.{Result}
use opl_flow.Base.Dict.{NodupKeys, lookup}
use opl_flow.Fleet.Common.{FleetError, normalize_node_id}
use opl_flow.Fleet.Lease.Data.{Instant, Lease, LeaseStore, StoreFile}
use opl_flow.Fleet.Lease.Store.{read_lease_store}
use opl_flow.Fleet.Lease.Records.{
  acquire_lease_record, renew_lease_record, release_lease_record, assert_lease_cas,
}
use opl_flow.Fleet.Admission.Roles.{NodeRegistry}
use opl_flow.Fleet.Admission.Verify.{verify_lease_record}
use opl_flow.Fleet.Runner.Control.{ControlStatus, GithubState}
use opl_flow.Fleet.Runner.Record.{
  RunnerTransaction, missing, RunnerBinding, read_runner_transaction, read_content,
  runner_transaction_from_lease,
}
use opl_flow.Fleet.Runner.Commands.{
  RoleState, Shutdown, StartArgs, StartAnswers, Outcome, is_down, confirm_runner_shutdown, startup,
  start_admission, clean_up, start_recorded, start_leased, fleet_runner_start, found_transaction,
  fleet_runner_stop, fleet_runner_renew, renewal_checks, may_renew,
}
use opl_flow.Base.{if◌then◌else◌, eqb, member, subset, texts_eq, sorted_set, insert_sorted, last_n}
use opl_flow.Base.Int.{pos}
use opl_flow.Base.Dict.{insert, erase}
use opl_flow.Base.Text.{
  is_slug, is_slug_or_dash, is_hex, is_space, is_blank, is_hex_of, lstrip, rstrip, strip, take,
  lower, lower_char, has_pair, chars, starts_with, contains,
}
use opl_flow.Fleet.Common.{
  is_node_id, is_owner_id, is_role, is_commit, dash_runs, is_path_like, node_slug, dispatch_adapter,
}
use opl_flow.Fleet.Lease.Data.{empty_lease_store, seconds_from}
use opl_flow.Fleet.Lease.Validate.{
  validate_owner_id, validate_role, validate_ttl, is_requirement, is_bad_model, validate_admission,
  check_binding, check_node_id, bad_policy, unprotected, validate_lease, validate_items,
  validate_lease_store, validate_audit, validate_event,
}
use opl_flow.Fleet.Lease.Store.{
  upgrade, write_lease_store, lease_is_expired, audit_lease, reap_one, reap_items,
  reap_expired_leases, lease_view, public_lease,
}
use opl_flow.Fleet.Lease.Requests.{
  lease_fields, build_lease, matches_preempt, is_preemptible_by, make_room,
}
use opl_flow.Fleet.Lease.Records.{acquire_in, next_phase, bad_transition, renew_in, release_in}
use opl_flow.Fleet.Admission.Checks.{failing, first_of_each, distinct_words}
use opl_flow.Fleet.Admission.Roles.{
  runner_role_nodes, assert_runner_role_node, assert_runner_role_workload,
}
use opl_flow.Fleet.Admission.Doctor.{
  DoctorReadback, is_ssh_only, matches_gpu, assert_lease_admission, build_admission_receipt,
}
use opl_flow.Fleet.Admission.Verify.{
  same_option, role_on_node, named_expectation, check_expectation,
}
use opl_flow.Fleet.Runner.Waits.{wait_until, wait_runner_state, wait_runner_processes}
use opl_flow.Fleet.Runner.Record.{check_start, probe_lease}
use opl_flow.Fleet.Common.{shutdown_unconfirmed, runner_not_started}
use opl_flow.Fleet.Runner.Held.{Holds, IsConsistent}
use opl_flow.Fleet.Runner.Waits.{Waited, wait_until-Waited}
use opl_flow.Fleet.Runner.Starts.{StartEnds, fleet_runner_start-StartEnds}
use opl_flow.Fleet.Runner.Stops.{Stopped, fleet_runner_stop-Stopped}
use opl_flow.Fleet.Runner.Renewals.{Renewed, fleet_runner_renew-Renewed}
use opl_flow.Fleet.Runner.Runs.{
  Command, start, stop, renew, run_commands, named_lease, events_of, Moves,
  run_commands-IsConsistent, run_commands-Moves,
}
use opl_flow.Fleet.Runner.Expiry.{expired_role_stays}

-- unfolds all that the three commands call
unfoldable runner_code : Unit {0}
unfolding member texts_eq sorted_set insert_sorted subset lookup insert erase last_n is_slug
    is_slug_or_dash is_hex is_space is_blank is_hex_of lstrip rstrip strip take lower lower_char
    has_pair starts_with contains is_node_id is_owner_id is_role is_commit dash_runs is_path_like
    node_slug normalize_node_id dispatch_adapter seconds_from validate_owner_id validate_role
    validate_ttl is_requirement is_bad_model validate_admission check_binding check_node_id
    bad_policy unprotected validate_lease validate_items validate_audit validate_event
    validate_lease_store upgrade read_lease_store write_lease_store lease_is_expired audit_lease
    reap_one reap_items reap_expired_leases lease_view public_lease failing first_of_each
    distinct_words runner_role_nodes assert_runner_role_node assert_runner_role_workload is_ssh_only
    matches_gpu assert_lease_admission build_admission_receipt same_option role_on_node
    named_expectation check_expectation verify_lease_record lease_fields build_lease matches_preempt
    is_preemptible_by make_room acquire_in acquire_lease_record assert_lease_cas next_phase
    bad_transition renew_in renew_lease_record release_in release_lease_record wait_until
    wait_runner_state wait_runner_processes probe_lease check_start read_content
    read_runner_transaction runner_transaction_from_lease is_down confirm_runner_shutdown startup
    start_admission clean_up start_recorded start_leased fleet_runner_start found_transaction
    fleet_runner_stop may_renew renewal_checks fleet_runner_renew
runner_code = tt

-- stands for `uuid.UUID` on the ids of these examples
abbrev sample_uuid : String → Bool
sample_uuid s = eqb (chars s) 36

-- stands for `str.casefold` on the lower-case names of these examples
abbrev sample_casefold : String → String
sample_casefold s = s

abbrev sample_commit : String
sample_commit = "0123456789abcdef0123456789abcdef01234567"

abbrev sample_registry : NodeRegistry
sample_registry = record {
  runner_roles = ("trainer", "mac-studio" ∷ []) ∷ [];
  runner_role_workloads = [];
}

abbrev sample_doctor : DoctorReadback
sample_doctor = record {
  checked_at = 1000000;
  inventory_age_seconds = pos 5;
  approved = true;
  receipt_state = some "CURRENT";
  control_current = some true;
  inventory_fresh = true;
  codex_ready = true;
  ssh_reachable = some true;
  tailscale_online = some true;
  power_ok = some true;
  storage_ok = some true;
  thermal_ok = some true;
  interactive_busy = some false;
  busy = some false;
  work_volume_ready = some true;
  features = "python" ∷ "ssh" ∷ [];
  memory_bytes = pos 17179869184;
  gpus = [];
  admission_ready = true;
}

abbrev sample_binding : RunnerBinding
sample_binding = record {
  node_id = "mac-studio";
  repository = "acme/widgets";
  runner_name = "studio-1";
  required_features = "python" ∷ [];
  min_memory_gb = pos 8;
}

abbrev sample_args : StartArgs
sample_args = record {
  role = "trainer";
  binding = sample_binding;
  owner_task = "bd-12";
  owner_thread = none;
  owner_run = none;
  workload_class = "background";
  priority = pos 10;
  preemptible = true;
  phase = "interruptible";
  ttl_seconds = pos 600;
  min_ttl_seconds = pos 60;
  max_admission_age_seconds = pos 300;
}

abbrev idle : ControlStatus
idle = record { enabled = false; online = false; processes = 0 }

abbrev at_work : ControlStatus
at_work = record { enabled = true; online = true; processes = 1 }

abbrev offline : GithubState
offline = record { registered = true; online = false; busy = false }

abbrev online : GithubState
online = record { registered = true; online = true; busy = false }

abbrev good_shutdown : Shutdown
good_shutdown = record {
  stop_call = ok true;
  processes = λ i. ok idle;
  process_rounds = 3;
  github = λ i. ok offline;
  github_rounds = 3;
}

-- the runner is up after one round
abbrev sample_answers : StartAnswers
sample_answers = record {
  read_revision = sample_commit;
  read_at = 1900000;
  status = ok idle;
  github = ok offline;
  doctor = ok sample_doctor;
  revision = sample_commit;
  drawn_id = "11111111-2222-3333-4444-555555555555";
  drawn_nonce = "00112233445566778899aabbccddeeff";
  acquired_at = 2000000;
  verified_at = 2500000;
  start_call = ok true;
  started_processes = λ i. ok (if eqb i 0 then idle else at_work);
  started_github = λ i. ok (if eqb i 0 then offline else online);
  process_rounds = 5;
  github_rounds = 5;
  shutdown = good_shutdown;
  released_at = 9000000;
}

abbrev nothing_yet : RoleState
nothing_yet = record { store = StoreFile.missing; transaction = missing }

abbrev started : Outcome (Lease × GithubState)
started =
    fleet_runner_start sample_uuid sample_casefold sample_registry sample_args sample_answers
      nothing_yet

abbrev started_lease : Lease
started_lease = record {
  lease_id = "11111111-2222-3333-4444-555555555555";
  generation = 1;
  nonce = "00112233445566778899aabbccddeeff";
  node_id = "mac-studio";
  owner_task = "bd-12";
  owner_thread = none;
  owner_run = none;
  role = some "trainer";
  workload_class = "background";
  priority = pos 10;
  preemptible = true;
  phase = "interruptible";
  acquired_at = 2000000;
  expires_at = 602000000;
  control_commit = sample_commit;
  admission = record {
    checked_at = 1000000;
    inventory_age_seconds = pos 5;
    requirements = "python" ∷ [];
    min_memory_gb = pos 8;
    gpu_api = "any";
    min_gpu_memory_gb = pos 0;
    gpu_model = none;
    power_ok = true;
    storage_ok = true;
    thermal_ok = true;
    interactive_busy = false;
    busy = false;
    work_volume_ready = true;
  };
  dispatch_adapter = "github-runner";
  worker_binding = none;
}

abbrev started_transaction : RunnerTransaction
started_transaction = record {
  start = record {
    role = "trainer";
    node_id = "mac-studio";
    repository = "acme/widgets";
    runner_name = "studio-1";
    lease_id = "11111111-2222-3333-4444-555555555555";
    generation = 1;
    nonce = "00112233445566778899aabbccddeeff";
    owner_task = "bd-12";
    owner_thread = none;
    owner_run = none;
    workload_class = "background";
    phase = "interruptible";
    started_at = 2000000;
  };
  ttl_seconds = pos 600;
  renewed_at = 2000000;
  lease_expires_at = 602000000;
}

abbrev store_of : StoreFile → LeaseStore
store_of StoreFile.missing = empty_lease_store
store_of (StoreFile.stored mode s) = s

abbrev started_store : LeaseStore
started_store = store_of started.0.store

sample_started : started.1 ≡ ok (started_lease, online)
unfolding runner_code
sample_started = refl

started-Holds : Holds started.0 started_store started_transaction started_lease
unfolding runner_code
started-Holds = record {
  written = refl;
  leased = refl;
  id = refl;
  generation = refl;
  nonce = refl;
  owner = refl;
  expiry = refl;
}

started_reads : read_lease_store sample_uuid started.0.store ≡ ok started_store
unfolding runner_code
started_reads = refl

started_unique : NodupKeys started_store.leases
unfolding runner_code
started_unique = (refl, tt)

started-IsConsistent : IsConsistent sample_uuid started.0 started_store
started-IsConsistent = record {
  reads = started_reads;
  unique = started_unique;
  names = inr (started_transaction, started_lease, started-Holds);
}

abbrev stopped : Outcome (Lease × ControlStatus × GithubState)
stopped = fleet_runner_stop sample_uuid none sample_commit 2600000 good_shutdown 3000000 started.0

-- the runner is still listed as online
abbrev bad_shutdown : Shutdown
bad_shutdown = record good_shutdown { github = λ i. ok online }

stop_unconfirmed :
    fleet_runner_stop sample_uuid none sample_commit 2600000 bad_shutdown 3000000 started.0
    ≡ (started.0, err shutdown_unconfirmed)
unfolding runner_code
stop_unconfirmed = refl

-- a runner that does not start is shut down, and its lease goes back
abbrev failed_answers : StartAnswers
failed_answers = record sample_answers { started_processes = λ i. ok idle }

failed_start :
    (fleet_runner_start sample_uuid sample_casefold sample_registry sample_args failed_answers
      nothing_yet).1
    ≡ err runner_not_started
unfolding runner_code
failed_start = refl

abbrev renewed : Outcome Lease
renewed =
    fleet_runner_renew sample_uuid (some "bd-12") none sample_commit 2600000 (ok at_work)
      (ok online) "ffeeddccbbaa99887766554433221100" 3000000 3000001 started.0

abbrev lease_or : Result FleetError Lease → Lease
lease_or (ok l) = l
lease_or (err e) = started_lease

abbrev renewed_runner_lease : Lease
renewed_runner_lease = lease_or renewed.1

fleet_runner_start-StartEnds_example :
    StartEnds sample_uuid sample_args sample_answers nothing_yet started.0 empty_lease_store
      started.1
unfolding runner_code
fleet_runner_start-StartEnds_example =
    fleet_runner_start-StartEnds sample_uuid sample_casefold sample_registry sample_args
      sample_answers nothing_yet started.0 empty_lease_store started.1 refl tt refl

fleet_runner_stop-Stopped_example :
    Stopped sample_uuid none sample_commit 2600000 started.0 stopped.0 started_store started_lease
      idle offline
unfolding runner_code
fleet_runner_stop-Stopped_example =
    fleet_runner_stop-Stopped sample_uuid none sample_commit 2600000 good_shutdown 3000000 started.0
      stopped.0 started_store started_lease idle offline started_reads refl

fleet_runner_renew-Renewed_example :
    Renewed sample_uuid started.0 renewed.0 started_store renewed_runner_lease
unfolding runner_code
fleet_runner_renew-Renewed_example =
    fleet_runner_renew-Renewed sample_uuid (some "bd-12") none sample_commit 2600000 (ok at_work)
      (ok online) "ffeeddccbbaa99887766554433221100" 3000000 3000001 started.0 renewed.0
      started_store renewed_runner_lease started-IsConsistent refl

abbrev sample_commands : List Command
sample_commands =
    renew (some "bd-12") none sample_commit 2600000 (ok at_work) (ok online)
      "ffeeddccbbaa99887766554433221100" 3000000 3000001
    ∷ stop none sample_commit 3100000 bad_shutdown 3200000
    ∷ stop none sample_commit 3300000 good_shutdown 3400000
    ∷ start sample_args sample_answers
    ∷ []

run_commands-IsConsistent_example :
    (s : LeaseStore) × IsConsistent sample_uuid
      (run_commands sample_uuid sample_casefold sample_registry started.0 sample_commands)
      s
run_commands-IsConsistent_example =
    run_commands-IsConsistent sample_uuid sample_casefold sample_registry started.0 sample_commands
      started_store started-IsConsistent

run_commands-Moves_example :
    Moves
      (events_of sample_uuid sample_casefold sample_registry started.0 sample_commands)
      (named_lease started.0.transaction)
      (named_lease
        (run_commands sample_uuid sample_casefold sample_registry started.0
          sample_commands).transaction)
run_commands-Moves_example =
    run_commands-Moves sample_uuid sample_casefold sample_registry started.0 sample_commands
      started_store started-IsConsistent

-- the end of the lease
abbrev too_late : Instant
too_late = 602000000

too_late_expired : started_lease.expires_at ≤ too_late
too_late_expired = omega arith

expired_role_stays_example :
    ((fleet_runner_start sample_uuid sample_casefold sample_registry sample_args sample_answers
        started.0).0
      ≡ started.0)
    × ((fleet_runner_stop sample_uuid none sample_commit 2600000 good_shutdown too_late started.0).0
        ≡ started.0)
    × ((fleet_runner_renew sample_uuid none none sample_commit 2600000
          (ok at_work)
          (ok online)
          "ffeeddccbbaa99887766554433221100"
          too_late
          602000001
          started.0).0
        ≡ started.0)
expired_role_stays_example =
    expired_role_stays sample_uuid sample_casefold sample_registry started.0 started_store
      started_transaction started_lease too_late sample_args sample_answers good_shutdown none none
      sample_commit "ffeeddccbbaa99887766554433221100" 2600000 602000001 (ok at_work) (ok online)
      started_reads started-Holds too_late_expired

-- the answers in the order in which a wait reads them
abbrev sample_reads : ℕ → Result FleetError ControlStatus
sample_reads i = ok (if eqb i 2 then at_work else idle)

wait_until-Waited_example : Waited sample_reads (λ s. s.online) 5 0 at_work
unfolding runner_code
wait_until-Waited_example = wait_until-Waited sample_reads (λ s. s.online) 5 0 at_work refl
