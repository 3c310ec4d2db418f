-- ===== src/Fleet/Admission/Doctor.antt =====
-- The gate on a node's readback in fleet_runner.py. A flag that the code compares with `True` or
-- `False` is a flag that may be missing; one that it tests for truth is a flag. `casefold` stands
-- for the method of Python's texts.
use opl_flow.Base.{
  suc, ◌*◌, ◌-◌, String, Bool, true, false, not, ◌&&◌, ◌||◌, ◌==◌, Option, none, some, List, [],
  ◌∷◌, member, texts_eq, sorted_set, subset, is_empty, any, raise_if, ◌>>◌,
}
use opl_flow.Base.Results.{Result}
use opl_flow.Base.Int.{ℤ, pos, negsuc, ltb_ℤ, leb_ℤ, eqb_ℤ}
use opl_flow.Base.Text.{contains}
use opl_flow.Fleet.Common.{
  FleetError, minimum_memory_negative, gpu_requirement_invalid, admission_rejected, gpu_apis,
}
use opl_flow.Fleet.Lease.Data.{Instant, Admission}
use opl_flow.Fleet.Lease.Validate.{validate_admission, is_unset}
use opl_flow.Fleet.Admission.Checks.{Check, failing, distinct_words}

pub record Gpu : Type 0 where
  pub name : String
  pub apis : List String
  pub memory_bytes : ℤ

-- The fields of a node's readback that the gate reads.
pub record DoctorReadback : Type 0 where
  pub checked_at : Instant
  pub inventory_age_seconds : ℤ
  pub approved : Bool
  pub receipt_state : Option String
  pub control_current : Option Bool
  pub inventory_fresh : Bool
  pub codex_ready : Bool
  pub ssh_reachable : Option Bool
  pub tailscale_online : Option Bool
  pub power_ok : Option Bool
  pub storage_ok : Option Bool
  pub thermal_ok : Option Bool
  pub interactive_busy : Option Bool
  pub busy : Option Bool
  pub work_volume_ready : Option Bool
  pub features : List String
  pub memory_bytes : ℤ
  pub gpus : List Gpu
  pub admission_ready : Bool

-- What the caller asks of a node.
pub record Requirement : Type 0 where
  pub required : List String
  pub min_memory_gb : ℤ
  pub gpu_api : String
  pub min_gpu_memory_gb : ℤ
  pub gpu_model : Option String

-- `flag is True`
abbrev pub is_set : Option Bool → Bool
is_set (some b) = b
is_set none = false

-- `flag is False`
abbrev pub is_cleared : Option Bool → Bool
is_cleared (some b) = not b
is_cleared none = false

-- `value != "CURRENT"`
abbrev pub is_stale : Option String → Bool
is_stale none = true
is_stale (some s) = not (s == "CURRENT")

-- `n * 1024**3`
abbrev pub gib : ℤ → ℤ
gib (pos n) = pos (n * 1073741824)
gib (negsuc n) = negsuc (suc n * 1073741824 - 1)

-- `required == {"ssh"}`
unfoldable pub is_ssh_only : List String → Bool
is_ssh_only required = texts_eq (sorted_set required) ("ssh" ∷ [])

-- `gpu_model` is given, and not empty
abbrev pub names_model : Option String → Bool
names_model m = not (is_unset m)

module _ (casefold : String → String) where
  abbrev pub fits_model : Option String → Gpu → Bool
  fits_model none g = true
  fits_model (some m) g = m == "" || casefold m == "" || contains (casefold m) (casefold g.name)

  -- The GPU meets the requirement.
  unfoldable pub matches_gpu : Requirement → Gpu → Bool
  matches_gpu q g =
      (q.gpu_api == "any" || member q.gpu_api g.apis)
      && leb_ℤ (gib q.min_gpu_memory_gb) g.memory_bytes
      && fits_model q.gpu_model g

  -- the tests of the gate, in its order
  abbrev pub admission_checks : DoctorReadback → Requirement → List Check
  admission_checks d q =
      let ssh_only = is_ssh_only q.required in
      (not d.approved, "not-approved")
      ∷ (not ssh_only && is_stale d.receipt_state, "not-current")
      ∷ (ssh_only && not (is_set d.control_current), "controller-not-current")
      ∷ (not d.inventory_fresh, "inventory-stale")
      ∷ (not d.codex_ready, "codex-not-ready")
      ∷ (not (is_set d.ssh_reachable), "ssh-unreachable")
      ∷ (not (is_set d.tailscale_online), "tailscale-offline")
      ∷ (not (is_set d.power_ok), "ac-required")
      ∷ (not (is_set d.storage_ok), "storage-gate")
      ∷ (not (is_set d.thermal_ok), "thermal-gate")
      ∷ (is_set d.interactive_busy, "interactive-busy")
      ∷ (
        not (is_set d.interactive_busy) && not (is_cleared d.interactive_busy),
        "occupancy-unknown",
      )
      ∷ (is_set d.busy, "busy")
      ∷ (not (is_set d.work_volume_ready), "work-volume")
      ∷ (not (subset q.required d.features), "capability")
      ∷ (ltb_ℤ d.memory_bytes (gib q.min_memory_gb), "memory")
      ∷ (
        (not (q.gpu_api == "any")
              || not (eqb_ℤ q.min_gpu_memory_gb (pos 0))
              || names_model q.gpu_model)
            && not (any (λ g. matches_gpu q g) d.gpus),
        "gpu",
      )
      ∷ []

  -- `failures or ["doctor-not-ready"]`
  abbrev pub or_not_ready : List String → List String
  or_not_ready [] = "doctor-not-ready" ∷ []
  or_not_ready xs = xs

  unfoldable pub assert_lease_admission :
      DoctorReadback → Requirement → Result FleetError (Unit {0})
  assert_lease_admission d q = do
    raise_if (ltb_ℤ q.min_memory_gb (pos 0)) minimum_memory_negative
    raise_if (not (member q.gpu_api gpu_apis) || ltb_ℤ q.min_gpu_memory_gb (pos 0))
        gpu_requirement_invalid
    let failures = failing (admission_checks d q)
    raise_if (not (is_empty failures) || (not (is_ssh_only q.required) && not d.admission_ready))
        (admission_rejected (distinct_words (or_not_ready failures)))

unfoldable pub build_admission_receipt : DoctorReadback → Requirement → Result FleetError Admission
build_admission_receipt d q = validate_admission (record {
  checked_at = d.checked_at;
  inventory_age_seconds = d.inventory_age_seconds;
  requirements = sorted_set q.required;
  min_memory_gb = q.min_memory_gb;
  gpu_api = q.gpu_api;
  min_gpu_memory_gb = q.min_gpu_memory_gb;
  gpu_model = q.gpu_model;
  power_ok = is_set d.power_ok;
  storage_ok = is_set d.storage_ok;
  thermal_ok = is_set d.thermal_ok;
  interactive_busy = is_set d.interactive_busy;
  busy = is_set d.busy;
  work_volume_ready = is_set d.work_volume_ready;
})
