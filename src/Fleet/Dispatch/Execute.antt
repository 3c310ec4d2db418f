-- ===== src/Fleet/Dispatch/Execute.antt =====
-- `fleet_dispatch_verify` and `fleet_dispatch_execute` of fleet_dispatch.py, on the configured
-- controller.
use opl_flow.Base.{
  ℕ, String, Bool, true, false, not, ◌&&◌, ◌==◌, ◌+◌, Option, none, some, List, if◌then◌else◌, ok,
  err, raise_if, ◌>>=◌, ◌>>◌,
}
use opl_flow.Base.Results.{Result}
use opl_flow.Base.Int.{ℤ, pos, negsuc, sub_ℕ, leb_ℤ}
use opl_flow.Json.{Value}
use opl_flow.Fleet.Common.{
  FleetError, not_ssh_session, dispatch_task_mismatch, dispatch_thread_mismatch,
  dispatch_run_mismatch, handoff_mismatch,
}
use opl_flow.Fleet.Lease.Data.{Instant, Lease, WorkerBinding, StoreFile}
use opl_flow.Fleet.Lease.Validate.{validate_owner_id}
use opl_flow.Fleet.Admission.Roles.{NodeRegistry}
use opl_flow.Fleet.Admission.Verify.{Expectation, Verification, same_option, verify_lease_record}
use opl_flow.Fleet.Runner.Control.{RunnerRoute}
use opl_flow.Fleet.Dispatch.Requirements.{JsonSource}
use opl_flow.Fleet.Dispatch.Request.{worker_handoff, binding_of}
use opl_flow.Fleet.Dispatch.Acquire.{dispatch_lease}
use opl_flow.Fleet.Dispatch.Session.{
  TimeReading, Execution, known, unknown, Transport, Invocation, validate_execution_argv,
  execute_ssh_session,
}

-- what a lease says of itself, as an expectation
abbrev pub expectation_of : Lease → ℤ → ℤ → String → String → Expectation
expectation_of l min_ttl_seconds max_admission_age_seconds current_control_commit adapter = record {
  node_id = l.node_id;
  role = l.role;
  lease_id = l.lease_id;
  generation = pos l.generation;
  owner_task = l.owner_task;
  owner_thread = l.owner_thread;
  owner_run = l.owner_run;
  workload_class = l.workload_class;
  phase = l.phase;
  preemptible = l.preemptible;
  min_ttl_seconds = min_ttl_seconds;
  required = l.admission.requirements;
  min_memory_gb = l.admission.min_memory_gb;
  max_admission_age_seconds = max_admission_age_seconds;
  expected_control_commit = l.control_commit;
  current_control_commit = current_control_commit;
  gpu_api = l.admission.gpu_api;
  min_gpu_memory_gb = l.admission.min_gpu_memory_gb;
  gpu_model = l.admission.gpu_model;
  expected_dispatch_adapter = adapter;
}

-- The arguments of `dispatch execute`.
pub record ExecuteArgs : Type 0 where
  pub handoff : JsonSource
  pub dispatch_id : String
  pub owner_task : String
  pub owner_thread : Option String
  pub owner_run : Option String
  pub min_ttl_seconds : ℤ
  pub max_admission_age_seconds : ℤ
  pub timeout_seconds : ℤ
  pub argv_json : Option Value
  pub cwd : Option String

-- `z + 30`
abbrev pub plus_margin : ℤ → ℤ
plus_margin (pos n) = pos (n + 30)
plus_margin (negsuc n) = sub_ℕ 29 n

abbrev pub larger : ℤ → ℤ → ℤ
larger a b = if leb_ℤ a b then b else a

unfoldable pub minimum_ttl : ℤ → ℤ → ℤ
minimum_ttl min_ttl_seconds timeout_seconds = larger min_ttl_seconds (plus_margin timeout_seconds)

abbrev pub same_binding : Option WorkerBinding → Option WorkerBinding → Bool
same_binding none none = true
same_binding (some a) (some b) =
    a.attempt_id == b.attempt_id
    && a.objective_id == b.objective_id
    && a.owner_id == b.owner_id
    && a.handoff_sha256 == b.handoff_sha256
same_binding _ _ = false

-- the owners that are named are those of the lease
unfoldable pub check_owners : ExecuteArgs → Lease → Result FleetError (Unit {0})
check_owners a l = do
  task ← validate_owner_id (some a.owner_task) true
  thread ← validate_owner_id a.owner_thread false
  run ← validate_owner_id a.owner_run false
  raise_if (not (same_option (some l.owner_task) task)) dispatch_task_mismatch
  raise_if (not (same_option l.owner_thread thread)) dispatch_thread_mismatch
  raise_if (not (same_option l.owner_run run)) dispatch_run_mismatch

-- `status` of the readback
abbrev pub execution_status : Execution → String
execution_status (known result) = if result.timed_out then "timed-out" else "completed"
execution_status (unknown reason returncode) = "unknown"

-- the exit code of the command
abbrev pub execution_exit : Execution → ℕ
execution_exit (known result) = 0
execution_exit (unknown reason returncode) = 1

module _ (is_uuid : String → Bool) (canonical : String → Option String)
    (registry : NodeRegistry) where
  unfoldable pub fleet_dispatch_verify :
      String → ℤ → ℤ → String → Instant → StoreFile → Result FleetError (Lease × Verification)
  fleet_dispatch_verify dispatch_id min_ttl_seconds max_admission_age_seconds revision now file = do
    lease ← dispatch_lease is_uuid canonical dispatch_id file
    verification ←
        verify_lease_record is_uuid lease
          (expectation_of lease min_ttl_seconds max_admission_age_seconds revision
            lease.dispatch_adapter)
          registry now
    ok (lease, verification)

  module _ (bytes : String → ℕ) (size : Value → ℕ) (fingerprint : Value → String)
      (read_time : Option Value → TimeReading) where
    -- the part of an execution before the session: its lease, and the command
    unfoldable pub execution_lease :
        ExecuteArgs → String → Instant → StoreFile → Result FleetError (Lease × List String)
    execution_lease a revision now file = do
      handoff ← worker_handoff size fingerprint a.handoff (some a.owner_task)
      lease ← dispatch_lease is_uuid canonical a.dispatch_id file
      raise_if (not (lease.dispatch_adapter == "ssh-session")) not_ssh_session
      check_owners a lease
      supplied ← binding_of size fingerprint handoff
      raise_if (not (same_binding lease.worker_binding supplied)) handoff_mismatch
      verify_lease_record is_uuid lease
          (expectation_of lease (minimum_ttl a.min_ttl_seconds a.timeout_seconds)
            a.max_admission_age_seconds revision "ssh-session")
          registry now
      argv ← validate_execution_argv bytes size read_time a.argv_json
      ok (lease, argv)

    -- the readback of a session, with its lease and its command
    abbrev pub execution_readback :
        Lease
        → List String
        → Result FleetError Execution
        → Result FleetError (Lease × List String × Execution)
    execution_readback lease argv r = do execution ← r; ok (lease, argv, execution)

    -- the invocation that is run, if one is, and the readback
    unfoldable pub fleet_dispatch_execute :
        ExecuteArgs
        → String
        → Instant
        → (String → RunnerRoute)
        → (Invocation → Transport)
        → StoreFile
        → Option Invocation × Result FleetError (Lease × List String × Execution)
    fleet_dispatch_execute a revision now routes transport file =
        elim (execution_lease a revision now file) [
          | err e ↦ (none, err e)
          | ok (lease, argv) ↦
              let (run, r) =
                execute_ssh_session bytes size read_time routes lease.node_id argv a.cwd
                  a.timeout_seconds false transport in
              (run, execution_readback lease argv r)
        ]
