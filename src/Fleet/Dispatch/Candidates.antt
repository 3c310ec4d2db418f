-- ===== src/Fleet/Dispatch/Candidates.antt =====
-- `dispatch_candidates` and `dispatch_plan_payload` of fleet_dispatch.py. The catalog, the maximal
-- age of an inventory and the clock are arguments.
use opl_flow.Base.{
  ℕ, String, Bool, true, false, not, ◌&&◌, ◌||◌, ◌==◌, Option, none, some, List, [], ◌∷◌, member,
  is_empty, if◌then◌else◌, ok, ◌>>=◌,
}
use opl_flow.Base.Results.{Result}
use opl_flow.Base.Int.{ℤ}
use opl_flow.Fleet.Common.{FleetError}
use opl_flow.Fleet.Lease.Data.{Instant, StoreFile}
use opl_flow.Fleet.Lease.Store.{active_lease_map}
use opl_flow.Fleet.Admission.Roles.{NodeRegistry, runner_role_nodes}
use opl_flow.Fleet.Admission.Doctor.{Requirement}
use opl_flow.Fleet.Features.{Inventory, RemoteControl, CatalogEntry}
use opl_flow.Fleet.Selection.{Selected, select_nodes}
use opl_flow.Fleet.Dispatch.Request.{Request}

-- What the planning reads besides the request.
pub record Catalog : Type 0 where
  pub nodes : List CatalogEntry
  pub max_age_hours : ℤ
  pub clock : CatalogEntry → Instant
  pub registry : NodeRegistry
  pub store : StoreFile
  pub leases_at : Instant

abbrev pub requirement_of : Request → Requirement
requirement_of r = record {
  required = r.requires;
  min_memory_gb = r.min_memory_gb;
  gpu_api = r.gpu_api;
  min_gpu_memory_gb = r.min_gpu_memory_gb;
  gpu_model = r.gpu_model;
}

unfoldable pub keep : (Selected → Bool) → List Selected → List Selected
keep p [] = []
keep p (x ∷ xs) = let rest = keep p xs in if p x then x ∷ rest else rest

unfoldable pub on_role :
    Option String → NodeRegistry → List Selected → Result FleetError (List Selected)
on_role none registry selected = ok selected
on_role (some role) registry selected = do
  allowed ← runner_role_nodes role registry
  ok (keep (λ x. member x.node_id allowed) selected)

abbrev pub on_node : Option String → List Selected → List Selected
on_node none selected = selected
on_node (some node_id) selected = keep (λ x. x.node_id == node_id) selected

-- the last entry of the id, as in a dict that is built from the list
unfoldable pub last_entry : String → List CatalogEntry → Option CatalogEntry
last_entry node_id [] = none
last_entry node_id (e ∷ es) = elim (last_entry node_id es) [
  | some later ↦ some later
  | none ↦ if e.node_id == node_id then some e else none
]

abbrev pub has_remote : Option RemoteControl → Bool
has_remote none = false
has_remote (some c) = c.startup_configured && c.running

abbrev pub inventory_remote : Option Inventory → Bool
inventory_remote none = false
inventory_remote (some i) = has_remote i.remote_control

abbrev pub entry_remote : Option CatalogEntry → Bool
entry_remote none = false
entry_remote (some e) = inventory_remote e.inventory

-- Codex on the node is set up to start, and running
unfoldable pub remote_ready : List CatalogEntry → String → Bool
remote_ready nodes node_id = entry_remote (last_entry node_id nodes)

module _ (is_uuid : String → Bool) (casefold : String → String) where
  unfoldable pub dispatch_candidates : Request → Catalog → Result FleetError (List Selected)
  dispatch_candidates r c = if not r.metadata.requires_fleet then ok [] else (do
    leases ← active_lease_map is_uuid c.store c.leases_at
    selected ← select_nodes casefold c.nodes (requirement_of r) c.max_age_hours c.clock leases
    allowed ← on_role r.role c.registry selected
    let chosen = on_node r.node_id allowed
    ok (
        if r.adapter == "remote-codex"
        then keep (λ x. remote_ready c.nodes x.node_id) chosen
        else chosen))

  -- The parts of a plan that are computed.
  pub record Plan : Type 0 where
    pub status : String
    pub candidates : List Selected
    pub fresh_doctor_before_acquire : Bool
    pub next_action : String

  abbrev pub supported_statuses : List String
  supported_statuses =
      "supported" ∷ "supported-via-runner-transaction" ∷ "supported-via-native-codex" ∷ []

  abbrev pub fleet_plan : Request → List Selected → Plan
  fleet_plan r candidates =
      let status : String =
        if not (member r.metadata.status supported_statuses)
        then "unsupported"
        else if is_empty candidates
        then "unavailable"
        else if r.adapter == "github-runner"
        then "available-via-runner-transaction"
        else "ready-to-acquire" in
      let next_action : String =
        if not (member r.metadata.status supported_statuses)
        then "adapter is planned; execution adapter is not implemented"
        else if is_empty candidates
        then "wait for a candidate node or change explicit requirements"
        else if r.adapter == "github-runner"
        then "use runner start/stop for the bound role; dispatch does not submit a GitHub job"
        else if r.adapter == "remote-codex"
        then "acquire the Fleet lease, verify it, then create or hand off the task through the native Codex App connection"
        else "run dispatch acquire; acquire performs fresh doctor before leasing" in
      record {
        status = status;
        candidates = candidates;
        fresh_doctor_before_acquire = true;
        next_action = next_action;
      }

  unfoldable pub dispatch_plan_payload : Request → Catalog → Result FleetError Plan
  dispatch_plan_payload r c =
      if not r.metadata.requires_fleet
      then ok (record {
        status = "local";
        candidates = [];
        fresh_doctor_before_acquire = false;
        next_action = "execute in the current Codex session";
      })
      else (do candidates ← dispatch_candidates r c; ok (fleet_plan r candidates))

  -- the exit code of `fleet_dispatch_plan`
  unfoldable pub plan_exit : Plan → ℕ
  plan_exit p = if p.status == "unavailable" || p.status == "unsupported" then 1 else 0
