-- ===== src/Fleet/Features.antt =====
-- scripts/opl_fleet_parts/fleet_features.py: the freshness of an inventory, the GPUs that it lists
-- and the features of a node. What `parse_memory_bytes` answers for an amount is the amount of the
-- record; `casefold` stands for the method of Python's texts.
use opl_flow.Base.{
  ℕ, suc, ◌-◌, String, Bool, true, false, not, ◌&&◌, ◌||◌, ◌==◌, Option, none, some, List, [], ◌∷◌,
  ◌++◌, ◌*◌, member, sorted_set, if◌then◌else◌, ok, raise_if, is_empty, ◌>>◌,
}
use opl_flow.Base.Results.{Result}
use opl_flow.Base.Int.{ℤ, pos, negsuc, ltb_ℤ, leb_ℤ}
use opl_flow.Base.Dict.{Dict}
use opl_flow.Base.Text.{contains, lower, strip, is_space}
use opl_flow.Fleet.Common.{FleetError, gpu_api_unknown, minimum_gpu_memory_negative, gpu_apis}
use opl_flow.Fleet.Lease.Data.{Instant, seconds_from}
use opl_flow.Fleet.Admission.Doctor.{Gpu, Requirement, matches_gpu}

-- An entry of `hardware.gpus` that is an object: its texts, and the amount of its memory.
pub record RawGpu : Type 0 where
  pub name : Option String
  pub model : Option String
  pub memory : Option ℕ

-- An entry of `baseline`.
pub record Capability : Type 0 where
  pub ready : Bool
  pub online : Bool
  pub installed : Bool

-- `capabilities.virtualization`: the flags that are tested with `is True`
pub record Virtualization : Type 0 where
  pub hypervisor_ready : Bool
  pub hyper_v_present : Bool
  pub broker_available : Bool
  pub broker_system_owned : Bool

-- `remote_control`: the flags that are tested with `is True`
pub record RemoteControl : Type 0 where
  pub startup_configured : Bool
  pub running : Bool

pub record Inventory : Type 0 where
  pub observed_at : Instant
  pub system : String
  pub kind : Option String
  pub architecture : Option String
  pub memory_bytes : Option ℕ
  pub gpus : List RawGpu
  pub baseline : Dict Capability
  pub software : Dict Bool
  pub virtualization : Virtualization
  pub remote_control : Option RemoteControl

-- An entry of the catalog's `nodes`, with the fields of its policy and its receipt that are read.
pub record CatalogEntry : Type 0 where
  pub node_id : String
  pub approved : Bool
  pub display_name : Option String
  pub labels : List String
  pub receipt_state : Option String
  pub inventory : Option Inventory

pub record GpuProfile : Type 0 where
  pub name : String
  pub apis : List String
  pub memory_bytes : Option ℕ

unfoldable pub inventory_age_seconds : Inventory → Instant → ℤ
inventory_age_seconds i now = seconds_from i.observed_at now

-- `hours * 3600`
abbrev pub in_seconds : ℤ → ℤ
in_seconds (pos n) = pos (n * 3600)
in_seconds (negsuc n) = negsuc (suc n * 3600 - 1)

unfoldable pub inventory_is_fresh : Inventory → ℤ → Instant → Bool
inventory_is_fresh i max_age_hours now =
    let age = inventory_age_seconds i now in
    leb_ℤ (pos 0) age && leb_ℤ age (in_seconds max_age_hours)

-- `a or b or ""`, of two texts that may be missing
abbrev pub first_text : Option String → Option String → String
first_text none none = ""
first_text none (some t) = t
first_text (some s) none = s
first_text (some s) (some t) = if s == "" then t else s

abbrev pub is_named_kind : String → Option String → Bool
is_named_kind s none = false
is_named_kind s (some k) = k == s

-- the memory of the host stands for that of a GPU of Apple's
abbrev pub unified : Bool → Option ℕ → Option ℕ → Option ℕ
unified metal (some n) host = some n
unified true none host = host
unified false none host = none

module _ (casefold : String → String) where
  abbrev pub is_cuda : String → Bool
  is_cuda name =
      let folded = casefold name in
      contains "nvidia" folded || contains "rtx" folded || contains "quadro" folded

  abbrev pub is_metal : Inventory → Bool
  is_metal i = lower i.system == "darwin" || is_named_kind "macos" i.kind

  -- the profile of a GPU with a name
  abbrev pub profile : Inventory → RawGpu → GpuProfile
  profile i g =
      let name = strip is_space (first_text g.name g.model) in
      record {
        name = name;
        apis =
            (if is_cuda name then "cuda" ∷ [] else []) ++ (if is_metal i then "metal" ∷ [] else []);
        memory_bytes = unified (is_metal i) g.memory i.memory_bytes;
      }

  unfoldable pub profiles : Inventory → List RawGpu → List GpuProfile
  profiles i [] = []
  profiles i (g ∷ gs) =
      let rest = profiles i gs in let p = profile i g in if p.name == "" then rest else p ∷ rest

  unfoldable pub gpu_profiles : Option Inventory → List GpuProfile
  gpu_profiles none = []
  gpu_profiles (some i) = profiles i i.gpus

  -- `gpu["memory_bytes"] or 0`
  abbrev pub amount : Option ℕ → ℕ
  amount none = 0
  amount (some n) = n

  abbrev pub as_gpu : GpuProfile → Gpu
  as_gpu p = record { name = p.name; apis = p.apis; memory_bytes = pos (amount p.memory_bytes) }

  unfoldable pub matching : Requirement → List GpuProfile → List GpuProfile
  matching q [] = []
  matching q (p ∷ ps) =
      let rest = matching q ps in if matches_gpu casefold q (as_gpu p) then p ∷ rest else rest

  unfoldable pub matching_gpus : CatalogEntry → Requirement → Result FleetError (List GpuProfile)
  matching_gpus entry q = do
    raise_if (not (member q.gpu_api gpu_apis)) gpu_api_unknown
    raise_if (ltb_ℤ q.min_gpu_memory_gb (pos 0)) minimum_gpu_memory_negative
    ok (matching q (gpu_profiles entry.inventory))

  abbrev pub live_only_policy_features : List String
  live_only_policy_features = "hyperv" ∷ "windows-clean-guest-reserve" ∷ []

  unfoldable pub policy_features : List String → List String
  policy_features [] = []
  policy_features (s ∷ ss) =
      let rest = policy_features ss in if member s live_only_policy_features then rest else s ∷ rest

  -- a text that is there and is not empty
  abbrev pub feature_of : Option String → List String
  feature_of none = []
  feature_of (some s) = if s == "" then [] else s ∷ []

  unfoldable pub apis_of : List GpuProfile → List String
  apis_of [] = []
  apis_of (p ∷ ps) = p.apis ++ apis_of ps

  unfoldable pub baseline_features : Dict Capability → List String
  baseline_features [] = []
  baseline_features ((k, c) ∷ d) =
      let rest = baseline_features d in
      if c.ready || c.online || c.installed then k ∷ rest else rest

  unfoldable pub software_features : Dict Bool → List String
  software_features [] = []
  software_features ((k, present) ∷ d) =
      let rest = software_features d in if present then k ∷ rest else rest

  abbrev pub virtualization_features : Bool → Virtualization → List String
  virtualization_features live v =
      if live && v.hypervisor_ready && v.hyper_v_present
      then "hyperv"
        ∷ (if v.broker_available && v.broker_system_owned
            then "windows-clean-guest-reserve" ∷ []
            else [])
      else []

  unfoldable pub inventory_features : Bool → Option Inventory → List String
  inventory_features live none = []
  inventory_features live (some i) =
      let ps = gpu_profiles (some i) in
      feature_of i.kind
      ++ feature_of i.architecture
      ++ (if is_empty ps then [] else "gpu" ∷ apis_of ps)
      ++ baseline_features i.baseline
      ++ software_features i.software
      ++ virtualization_features live i.virtualization

  -- the set of features, in order; `live` is the argument `live_only_observed`
  unfoldable pub node_features : CatalogEntry → Bool → List String
  node_features entry live =
      sorted_set (policy_features entry.labels ++ inventory_features live entry.inventory)
