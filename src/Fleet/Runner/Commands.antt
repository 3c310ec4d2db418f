-- ===== src/Fleet/Runner/Commands.antt =====
-- `fleet_runner_start`, `fleet_runner_stop` and `fleet_runner_renew` on the configured controller. The
-- state of a role is the lease store and the role's transaction file; a command returns the state
-- that it leaves, also when it raises. What processes, GitHub and the clock answer is an argument.
use opl_flow.Base.{
  ℕ, String, Bool, true, false, not, ◌&&◌, ◌||◌, ◌==◌, Option, none, some, is_some, eqb, ltb,
  if◌then◌else◌, ok, err, raise_if, ◌>>=◌, ◌>>◌,
}
use opl_flow.Base.Results.{Result}
use opl_flow.Base.Int.{ℤ, pos, eqb_ℤ}
use opl_flow.Fleet.Common.{
  FleetError, transaction_active, transaction_missing, transaction_owner, runner_active,
  runner_online, runner_not_started, runner_not_online, shutdown_unconfirmed, runner_not_active,
  cleanup_failed,
}
use opl_flow.Fleet.Lease.Data.{Instant, Admission, Lease, StoreFile}
use opl_flow.Fleet.Lease.Requests.{AcquireRequest, Credential}
use opl_flow.Fleet.Lease.Records.{acquire_lease_record, renew_lease_record, release_lease_record}
use opl_flow.Fleet.Admission.Roles.{NodeRegistry, assert_runner_role_workload}
use opl_flow.Fleet.Admission.Doctor.{
  DoctorReadback, Requirement, assert_lease_admission, build_admission_receipt,
}
use opl_flow.Fleet.Admission.Verify.{Expectation, verify_lease_record}
use opl_flow.Fleet.Runner.Control.{ControlStatus, GithubState}
use opl_flow.Fleet.Runner.Waits.{wait_runner_state, wait_runner_processes}
use opl_flow.Fleet.Runner.Record.{
  RunnerTransaction, TransactionFile, missing, stored, v2, RunnerBinding, read_runner_transaction,
  runner_transaction_from_lease, credential_of, renewed_transaction,
}

pub record RoleState : Type 0 where
  pub store : StoreFile
  pub transaction : TransactionFile

-- what a shutdown reads: the call of the stop command, and the two waits
pub record Shutdown : Type 0 where
  pub stop_call : Result FleetError Bool
  pub processes : ℕ → Result FleetError ControlStatus
  pub process_rounds : ℕ
  pub github : ℕ → Result FleetError GithubState
  pub github_rounds : ℕ

-- The runner is not enabled, has no process, and is offline in both views.
unfoldable pub is_down : ControlStatus → GithubState → Bool
is_down after observed =
    not after.enabled && not after.online && eqb after.processes 0 && not observed.online

unfoldable pub confirm_runner_shutdown : Shutdown → Result FleetError (ControlStatus × GithubState)
confirm_runner_shutdown x = do
  x.stop_call
  after ← wait_runner_processes x.processes true x.process_rounds
  observed ← wait_runner_state x.github false x.github_rounds
  raise_if (not (is_down after observed)) shutdown_unconfirmed
  ok (after, observed)

-- The arguments of `fleet_runner_start`, with the role's binding.
pub record StartArgs : Type 0 where
  pub role : String
  pub binding : RunnerBinding
  pub owner_task : String
  pub owner_thread : Option String
  pub owner_run : Option String
  pub workload_class : String
  pub priority : ℤ
  pub preemptible : Bool
  pub phase : String
  pub ttl_seconds : ℤ
  pub min_ttl_seconds : ℤ
  pub max_admission_age_seconds : ℤ

-- What a start reads and draws, in its order.
pub record StartAnswers : Type 0 where
  pub read_revision : String
  pub read_at : Instant
  pub status : Result FleetError ControlStatus
  pub github : Result FleetError GithubState
  pub doctor : Result FleetError DoctorReadback
  pub revision : String
  pub drawn_id : String
  pub drawn_nonce : String
  pub acquired_at : Instant
  pub verified_at : Instant
  pub start_call : Result FleetError Bool
  pub started_processes : ℕ → Result FleetError ControlStatus
  pub started_github : ℕ → Result FleetError GithubState
  pub process_rounds : ℕ
  pub github_rounds : ℕ
  pub shutdown : Shutdown
  pub released_at : Instant

abbrev pub start_requirement : StartArgs → Requirement
start_requirement a = record {
  required = a.binding.required_features;
  min_memory_gb = a.binding.min_memory_gb;
  gpu_api = "any";
  min_gpu_memory_gb = pos 0;
  gpu_model = none;
}

abbrev pub start_request : StartArgs → StartAnswers → Admission → AcquireRequest
start_request a x admission = record {
  node_id = a.binding.node_id;
  owner_task = a.owner_task;
  owner_thread = a.owner_thread;
  owner_run = a.owner_run;
  role = some a.role;
  workload_class = a.workload_class;
  priority = a.priority;
  preemptible = a.preemptible;
  phase = a.phase;
  ttl_seconds = a.ttl_seconds;
  control_revision = x.revision;
  admission = admission;
  preempt_lease_id = none;
  preempt_generation = none;
  preempt_nonce = none;
  dispatch_adapter_name = "github-runner";
  worker_binding = none;
  drawn_id = x.drawn_id;
  drawn_nonce = x.drawn_nonce;
}

abbrev pub start_expectation : StartArgs → StartAnswers → Lease → Expectation
start_expectation a x lease = record {
  node_id = a.binding.node_id;
  role = some a.role;
  lease_id = lease.lease_id;
  generation = pos lease.generation;
  owner_task = a.owner_task;
  owner_thread = a.owner_thread;
  owner_run = a.owner_run;
  workload_class = a.workload_class;
  phase = a.phase;
  preemptible = a.preemptible;
  min_ttl_seconds = a.min_ttl_seconds;
  required = a.binding.required_features;
  min_memory_gb = a.binding.min_memory_gb;
  max_admission_age_seconds = a.max_admission_age_seconds;
  expected_control_commit = x.revision;
  current_control_commit = x.revision;
  gpu_api = "any";
  min_gpu_memory_gb = pos 0;
  gpu_model = none;
  expected_dispatch_adapter = "github-runner";
}

-- the credential with which a start gives its lease back
abbrev pub start_credential : StartArgs → Lease → Credential
start_credential a lease = record {
  node_id = a.binding.node_id;
  lease_id = lease.lease_id;
  generation = lease.generation;
  nonce = lease.nonce;
  owner_task = a.owner_task;
}

-- the runner is started, has a process, and comes online
unfoldable pub startup : StartAnswers → Result FleetError GithubState
startup x = do
  x.start_call
  remote ← wait_runner_processes x.started_processes false x.process_rounds
  raise_if (ltb remote.processes 1) runner_not_started
  observed ← wait_runner_state x.started_github true x.github_rounds
  raise_if (not observed.online) runner_not_online
  ok observed

abbrev pub Outcome : Type 0 → Type 0
Outcome A = RoleState × Result FleetError A

module _ (is_uuid : String → Bool) (casefold : String → String) (registry : NodeRegistry) where
  -- the part of a start before it acquires its lease
  unfoldable pub start_admission :
      StartArgs → StartAnswers → RoleState → Result FleetError Admission
  start_admission a x w = do
    existing ← read_runner_transaction is_uuid w.transaction x.read_revision x.read_at
    raise_if (is_some existing) transaction_active
    before ← x.status
    raise_if (before.enabled || not (eqb before.processes 0) || before.online) runner_active
    registered ← x.github
    raise_if registered.online runner_online
    doctor ← x.doctor
    assert_lease_admission casefold doctor (start_requirement a)
    admission ← build_admission_receipt doctor (start_requirement a)
    assert_runner_role_workload a.role a.workload_class registry
    ok admission

  -- the part after a failed startup
  unfoldable pub clean_up :
      StartArgs → StartAnswers → Lease → RoleState → FleetError → Outcome (Lease × GithubState)
  clean_up a x lease w e = elim (confirm_runner_shutdown x.shutdown) [
    | err e' ↦ (w, err (cleanup_failed e e'))
    | ok down ↦
        elim (release_lease_record is_uuid (start_credential a lease) x.released_at w.store) [
          | err e' ↦ (w, err e')
          | ok (released, store) ↦ (record { store = store; transaction = missing }, err e)
        ]
  ]

  -- the part with a verified lease
  unfoldable pub start_recorded :
      StartArgs → StartAnswers → Lease → RoleState → Outcome (Lease × GithubState)
  start_recorded a x lease w =
      elim (runner_transaction_from_lease a.role a.binding lease a.ttl_seconds) [
        | err e ↦ (w, err e)
        | ok t ↦
            let recorded : RoleState = record w { transaction = stored 384 (v2 t) } in
            elim (startup x) [
              | ok observed ↦ (recorded, ok (lease, observed))
              | err e ↦ clean_up a x lease recorded e
            ]
      ]

  -- the part with a lease
  unfoldable pub start_leased :
      StartArgs → StartAnswers → Lease → RoleState → Outcome (Lease × GithubState)
  start_leased a x lease w =
      elim (verify_lease_record is_uuid lease (start_expectation a x lease) registry
        x.verified_at) [
          | ok v ↦ start_recorded a x lease w
          | err e ↦
              elim (release_lease_record is_uuid (start_credential a lease) x.released_at w.store) [
                | err e' ↦ (w, err e')
                | ok (released, store) ↦ (record w { store = store }, err e)
              ]
        ]

  unfoldable pub fleet_runner_start :
      StartArgs → StartAnswers → RoleState → Outcome (Lease × GithubState)
  fleet_runner_start a x w = elim (start_admission a x w) [
    | err e ↦ (w, err e)
    | ok admission ↦
        elim (acquire_lease_record is_uuid (start_request a x admission) x.acquired_at w.store) [
          | err e ↦ (w, err e)
          | ok (lease, store) ↦ start_leased a x lease (record w { store = store })
        ]
  ]

-- the transaction that a command finds, of the owner that it names, if it names one
abbrev pub is_other_owner : Option String → String → Bool
is_other_owner none owner = false
is_other_owner (some s) owner = not (s == "") && not (s == owner)

-- `args.ttl_seconds or int(transaction["ttl_seconds"])`
abbrev pub ttl_or : Option ℤ → ℤ → ℤ
ttl_or none old = old
ttl_or (some z) old = if eqb_ℤ z (pos 0) then old else z

unfoldable pub may_renew : ControlStatus → GithubState → Bool
may_renew control observed = control.enabled && ltb 0 control.processes && observed.online

module _ (is_uuid : String → Bool) where
  unfoldable pub found_transaction :
      Option String → RoleState → String → Instant → Result FleetError RunnerTransaction
  found_transaction owner_task w revision now = do
    existing ← read_runner_transaction is_uuid w.transaction revision now
    elim existing [
      | none ↦ err transaction_missing
      | some t ↦
          if is_other_owner owner_task t.start.owner_task then err transaction_owner else ok t
    ]

  unfoldable pub fleet_runner_stop :
      Option String
      → String
      → Instant
      → Shutdown
      → Instant
      → RoleState
      → Outcome (Lease × ControlStatus × GithubState)
  fleet_runner_stop owner_task revision now shutdown released_at w =
      elim (found_transaction owner_task w revision now) [
        | err e ↦ (w, err e)
        | ok t ↦ elim (confirm_runner_shutdown shutdown) [
          | err e ↦ (w, err e)
          | ok (after, observed) ↦
              elim (release_lease_record is_uuid (credential_of t) released_at w.store) [
                | err e ↦ (w, err e)
                | ok (released, store) ↦ (
                  record { store = store; transaction = missing },
                  ok (released, after, observed),
                )
              ]
        ]
      ]

  unfoldable pub renewal_checks :
      Option String
      → String
      → Instant
      → Result FleetError ControlStatus
      → Result FleetError GithubState
      → RoleState
      → Result FleetError RunnerTransaction
  renewal_checks owner_task revision now status github w = do
    t ← found_transaction owner_task w revision now
    control ← status
    observed ← github
    raise_if (not (may_renew control observed)) runner_not_active
    ok t

  unfoldable pub fleet_runner_renew :
      Option String
      → Option ℤ
      → String
      → Instant
      → Result FleetError ControlStatus
      → Result FleetError GithubState
      → String
      → Instant
      → Instant
      → RoleState
      → Outcome Lease
  fleet_runner_renew owner_task ttl_seconds revision now status github drawn_nonce renew_at
        renewed_at w =
      elim (renewal_checks owner_task revision now status github w) [
        | err e ↦ (w, err e)
        | ok t ↦
            let ttl = ttl_or ttl_seconds t.ttl_seconds in
            elim (renew_lease_record is_uuid (credential_of t) ttl (some t.start.phase) drawn_nonce
              renew_at w.store) [
                | err e ↦ (w, err e)
                | ok (renewed, store) ↦ (
                  record {
                    store = store;
                    transaction = stored 384 (v2 (renewed_transaction t renewed ttl renewed_at));
                  },
                  ok renewed,
                )
              ]
      ]
