-- ===== src/Fleet/Dispatch/Acquire.antt =====
-- `fleet_dispatch_acquire` and `fleet_dispatch_release` of fleet_dispatch.py, on the configured
-- controller. What the doctor of a node answers is an argument.
use opl_flow.Base.{
  ℕ, String, Bool, true, not, ◌==◌, Option, none, some, List, [], ◌∷◌, member, is_empty,
  if◌then◌else◌, ok, err, raise_if, ◌>>=◌, ◌>>◌,
}
use opl_flow.Base.Results.{Result}
use opl_flow.Base.Dict.{Dict}
use opl_flow.Fleet.Common.{
  FleetError, runner_not_dispatched, no_acquire_route, no_dispatch_candidate, no_fresh_admission,
  remote_codex_not_ready, dispatch_id_invalid, dispatch_lease_unavailable, dispatch_owner_mismatch,
}
use opl_flow.Fleet.Lease.Data.{Instant, Admission, Lease, StoreFile}
use opl_flow.Fleet.Lease.Store.{read_lease_store}
use opl_flow.Fleet.Lease.Requests.{AcquireRequest, Credential}
use opl_flow.Fleet.Lease.Records.{acquire_lease_record, release_lease_record}
use opl_flow.Fleet.Admission.Roles.{
  NodeRegistry, assert_runner_role_node, assert_runner_role_workload,
}
use opl_flow.Fleet.Admission.Doctor.{
  DoctorReadback, assert_lease_admission, build_admission_receipt,
}
use opl_flow.Fleet.Selection.{Selected}
use opl_flow.Fleet.Dispatch.Request.{Request}
use opl_flow.Fleet.Dispatch.Candidates.{Catalog, requirement_of, remote_ready, dispatch_candidates}

-- The arguments of `dispatch acquire` that are not of the request, with the values that are drawn.
pub record AcquireArgs : Type 0 where
  pub owner_task : String
  pub owner_thread : Option String
  pub owner_run : Option String
  pub preempt_lease_id : Option String
  pub preempt_generation : Option ℕ
  pub preempt_nonce : Option String
  pub revision : String
  pub drawn_id : String
  pub drawn_nonce : String
  pub acquired_at : Instant

-- the role of the request, on a node and with a class of work that it allows
unfoldable pub candidate_role : Request → String → NodeRegistry → Result FleetError (Option String)
candidate_role r node_id registry = elim r.role [
  | none ↦ ok none
  | some role ↦ (do
    allowed ← assert_runner_role_node role node_id registry
    assert_runner_role_workload allowed r.workload_class registry
    ok (some allowed))
]

-- native Codex has its own transport
abbrev pub without_transport : DoctorReadback → DoctorReadback
without_transport d = record d {
  admission_ready = true;
  ssh_reachable = some true;
  tailscale_online = some true;
}

-- A candidate that passes the gate.
pub record Admitted : Type 0 where
  pub node_id : String
  pub role : Option String
  pub view : DoctorReadback
  pub admission : Admission

module _ (casefold : String → String) where
  -- the readback that the gate is asked about
  unfoldable pub admission_view :
      Request → Catalog → String → DoctorReadback → Result FleetError DoctorReadback
  admission_view r c node_id d =
      if r.adapter == "remote-codex"
      then (if remote_ready c.nodes node_id
          then ok (without_transport d)
          else err remote_codex_not_ready)
      else ok d

  -- the body of the loop for one candidate
  unfoldable pub admit :
      Request
      → Catalog
      → (String → Result FleetError DoctorReadback)
      → String
      → Result FleetError Admitted
  admit r c doctor node_id = do
    role ← candidate_role r node_id c.registry
    d ← doctor node_id
    view ← admission_view r c node_id d
    assert_lease_admission casefold view (requirement_of r)
    admission ← build_admission_receipt view (requirement_of r)
    ok (record { node_id = node_id; role = role; view = view; admission = admission })

  -- the loop, which ends at the first candidate that is admitted
  unfoldable pub first_admitted :
      Request
      → Catalog
      → (String → Result FleetError DoctorReadback)
      → List Selected
      → Result FleetError Admitted
  first_admitted r c doctor [] = err no_fresh_admission
  first_admitted r c doctor (x ∷ xs) = elim (admit r c doctor x.node_id) [
    | ok a ↦ ok a
    | err e ↦ first_admitted r c doctor xs
  ]

unfoldable pub acquire_request : Request → AcquireArgs → Admitted → AcquireRequest
acquire_request r a p = record {
  node_id = p.node_id;
  owner_task = a.owner_task;
  owner_thread = a.owner_thread;
  owner_run = a.owner_run;
  role = p.role;
  workload_class = r.workload_class;
  priority = r.priority;
  preemptible = r.preemptible;
  phase = r.phase;
  ttl_seconds = r.ttl_seconds;
  control_revision = a.revision;
  admission = p.admission;
  preempt_lease_id = a.preempt_lease_id;
  preempt_generation = a.preempt_generation;
  preempt_nonce = a.preempt_nonce;
  dispatch_adapter_name = r.adapter;
  worker_binding = r.worker_binding;
  drawn_id = a.drawn_id;
  drawn_nonce = a.drawn_nonce;
}

abbrev pub leased_adapters : List String
leased_adapters = "lease-only" ∷ "ssh-session" ∷ "remote-codex" ∷ []

-- the guard on the adapter
abbrev pub check_route : String → Result FleetError (Unit {0})
check_route adapter =
    if member adapter leased_adapters
    then ok tt
    else if adapter == "github-runner"
    then err runner_not_dispatched
    else err no_acquire_route

module _ (is_uuid : String → Bool) (casefold : String → String) where
  -- the part of an acquisition for an adapter that needs the Fleet; `file` is the store at its end
  unfoldable pub fleet_acquire :
      Request
      → AcquireArgs
      → Catalog
      → (String → Result FleetError DoctorReadback)
      → StoreFile
      → Result FleetError (Lease × StoreFile)
  fleet_acquire r a c doctor file = do
    check_route r.adapter
    candidates ← dispatch_candidates is_uuid casefold r c
    raise_if (is_empty candidates) no_dispatch_candidate
    p ← first_admitted casefold r c doctor candidates
    acquire_lease_record is_uuid (acquire_request r a p) a.acquired_at file

  -- there is no lease for a request that is run where it is made
  unfoldable pub fleet_dispatch_acquire :
      Request
      → AcquireArgs
      → Catalog
      → (String → Result FleetError DoctorReadback)
      → StoreFile
      → Result FleetError (Option Lease × StoreFile)
  fleet_dispatch_acquire r a c doctor file =
      if r.adapter == "local-codex"
      then ok (none, file)
      else (do (lease, written) ← fleet_acquire r a c doctor file; ok (some lease, written))

-- the first lease of the id
unfoldable pub lease_of_id : String → Dict Lease → Option Lease
lease_of_id id [] = none
lease_of_id id ((k, l) ∷ d) = if l.lease_id == id then some l else lease_of_id id d

-- `canonical` is `str(uuid.UUID(text))`, if the text is a UUID
unfoldable pub dispatch_lease :
    (String → Bool) → (String → Option String) → String → StoreFile → Result FleetError Lease
dispatch_lease is_uuid canonical dispatch_id file = elim (canonical dispatch_id) [
  | none ↦ err dispatch_id_invalid
  | some id ↦ (do
    store ← read_lease_store is_uuid file
    elim (lease_of_id id store.leases) [ none ↦ err dispatch_lease_unavailable | some l ↦ ok l ])
]

abbrev pub lease_credential : Lease → Credential
lease_credential l = record {
  node_id = l.node_id;
  lease_id = l.lease_id;
  generation = l.generation;
  nonce = l.nonce;
  owner_task = l.owner_task;
}

unfoldable pub fleet_dispatch_release :
    (String → Bool)
    → (String → Option String)
    → String
    → String
    → Instant
    → StoreFile
    → Result FleetError (Lease × StoreFile)
fleet_dispatch_release is_uuid canonical dispatch_id owner_task now file = do
  lease ← dispatch_lease is_uuid canonical dispatch_id file
  raise_if (not (owner_task == lease.owner_task)) dispatch_owner_mismatch
  release_lease_record is_uuid (lease_credential lease) now file
