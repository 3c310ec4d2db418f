-- ===== src/Fleet/Selection.antt =====
-- `select_nodes` of scripts/opl_fleet_parts/fleet_lease.py: the entries of a catalog that may run a
-- job and have no lease, in the order of their ids. `clock` gives the instant at which an entry is
-- looked at.
pub mod Sorting
pub mod Exact
use Prim.Native.String
use Prim.Native.Nat.{Ordering}
use opl_flow.Base.{
  ℕ, String, Bool, true, false, not, ◌&&◌, ◌||◌, ◌==◌, Option, none, some, List, [], ◌∷◌, subset,
  is_some, is_empty, ok, err, ◌>>=◌, if◌then◌else◌,
}
use opl_flow.Base.Results.{Result}
use opl_flow.Base.Int.{ℤ, pos, leb_ℤ, eqb_ℤ}
use opl_flow.Base.Dict.{Dict, lookup}
use opl_flow.Fleet.Common.{FleetError}
use opl_flow.Fleet.Lease.Data.{Instant, Lease}
use opl_flow.Fleet.Admission.Doctor.{Requirement, gib, is_stale, names_model}
use opl_flow.Fleet.Features.{
  Inventory, CatalogEntry, GpuProfile, inventory_is_fresh, amount, gpu_profiles, matching_gpus,
  node_features,
}

-- An element of the result.
pub record Selected : Type 0 where
  pub node_id : String
  pub display_name : Option String
  pub features : List String
  pub memory_bytes : Option ℕ
  pub gpus : List GpuProfile
  pub inventory_observed_at : Instant

module _ (casefold : String → String) where
  -- the tests before those of the GPUs
  unfoldable pub is_ready : Requirement → ℤ → Instant → CatalogEntry → Inventory → Bool
  is_ready q max_age_hours now entry inventory =
      entry.approved
      && not (is_stale entry.receipt_state)
      && inventory_is_fresh inventory max_age_hours now
      && leb_ℤ (gib q.min_memory_gb) (pos (amount casefold inventory.memory_bytes))
      && subset q.required (node_features casefold entry false)

  -- `gpu_api != "any" or min_gpu_memory_gb or gpu_model`
  abbrev pub asks_gpu : Requirement → Bool
  asks_gpu q =
      not (q.gpu_api == "any") || not (eqb_ℤ q.min_gpu_memory_gb (pos 0)) || names_model q.gpu_model

  unfoldable pub has_gpu : Requirement → CatalogEntry → Result FleetError Bool
  has_gpu q entry =
      if asks_gpu q
      then (do gpus ← matching_gpus casefold entry q; ok (not (is_empty gpus)))
      else ok true

  abbrev pub selected : CatalogEntry → Inventory → Selected
  selected entry inventory = record {
    node_id = entry.node_id;
    display_name = entry.display_name;
    features = node_features casefold entry false;
    memory_bytes = inventory.memory_bytes;
    gpus = gpu_profiles casefold entry.inventory;
    inventory_observed_at = inventory.observed_at;
  }

  -- the body of the loop for one entry: what it adds to the result, if anything
  unfoldable pub select_entry :
      Requirement → ℤ → Instant → Dict Lease → CatalogEntry → Result FleetError (Option Selected)
  select_entry q max_age_hours now leases entry = elim entry.inventory [
    | none ↦ ok none
    | some inventory ↦ elim (is_ready q max_age_hours now entry inventory) [
      | false ↦ ok none
      | true ↦ (do
        gpu ← has_gpu q entry
        ok (
            if gpu && not (is_some (lookup entry.node_id leases))
            then some (selected entry inventory)
            else none))
    ]
  ]

  unfoldable pub select_entries :
      Requirement
      → ℤ
      → (CatalogEntry → Instant)
      → Dict Lease
      → List CatalogEntry
      → Result FleetError (List Selected)
  select_entries q max_age_hours clock leases [] = ok []
  select_entries q max_age_hours clock leases (entry ∷ entries) = do
    chosen ← select_entry q max_age_hours (clock entry) leases entry
    rest ← select_entries q max_age_hours clock leases entries
    ok (elim chosen [ none ↦ rest | some x ↦ x ∷ rest ])

-- an element in the place that its id has; elements of one id keep their order
unfoldable pub insert_by_id : Selected → List Selected → List Selected
insert_by_id x [] = x ∷ []
insert_by_id x (y ∷ ys) = elim (String.compare y.node_id x.node_id) [
  | Ordering.lt ↦ y ∷ insert_by_id x ys
  | _ ↦ x ∷ y ∷ ys
]

-- `sorted(selected, key=lambda item: item["node_id"])`
unfoldable pub sort_by_id : List Selected → List Selected
sort_by_id [] = []
sort_by_id (x ∷ xs) = insert_by_id x (sort_by_id xs)

module _ (casefold : String → String) where
  unfoldable pub select_nodes :
      List CatalogEntry
      → Requirement
      → ℤ
      → (CatalogEntry → Instant)
      → Dict Lease
      → Result FleetError (List Selected)
  select_nodes nodes q max_age_hours clock leases = do
    chosen ← select_entries casefold q max_age_hours clock leases nodes
    ok (sort_by_id chosen)
