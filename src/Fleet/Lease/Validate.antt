-- ===== src/Fleet/Lease/Validate.antt =====
-- The validators of fleet_lease.py. Each returns its argument, as the code does; the tests on the
-- types of the fields are those of the records. `is_uuid` stands for `uuid.UUID`, which raises for
-- a text that is none.
use Prim.Native.Nat.{max}
use opl_flow.Base.{
  ℕ, String, Bool, true, false, not, ◌&&◌, ◌||◌, Option, none, some, List, [], ◌∷◌, ◌==◌, member,
  texts_eq, sorted_set, ltb, leb, eqb, if◌then◌else◌, ok, err, raise_if, ◌>>=◌, ◌>>◌, any, length,
}
use opl_flow.Base.Results.{Result}
use opl_flow.Base.Int.{ℤ, pos, ltb_ℤ, leb_ℤ}
use opl_flow.Base.Dict.{Dict}
use opl_flow.Base.Text.{is_blank, is_hex_of, is_slug_or_dash, all_chars, any_char, chars}
use opl_flow.Fleet.Common.{
  FleetError, owner_required, owner_invalid, role_required, role_invalid, admission_invalid,
  worker_binding_invalid, lease_id_invalid, lease_identity_invalid, workload_policy_invalid,
  protected_owner_required, expiry_invalid, commit_invalid, store_invalid, store_node_invalid,
  store_node_mismatch, generation_backward, audit_event_invalid, ttl_out_of_range,
  lease_workload_classes, preemptible_workload_classes, protected_workload_classes, lease_phases,
  gpu_apis, is_owner_id, is_role, is_commit, normalize_node_id, dispatch_adapter,
}
use opl_flow.Fleet.Lease.Data.{Admission, WorkerBinding, Lease, AuditEvent, LeaseStore}

-- `value is None or value == ""`
abbrev pub is_unset : Option String → Bool
is_unset none = true
is_unset (some s) = s == ""

owner_text : Option String → Bool → Result FleetError (Option String)
owner_text none required = if required then err owner_required else ok none
owner_text (some s) required =
    if s == ""
    then (if required then err owner_required else ok none)
    else if is_owner_id s
    then ok (some s)
    else err owner_invalid

unfoldable pub validate_owner_id : Option String → Bool → Result FleetError (Option String)
unfolding owner_text is_owner_id
validate_owner_id value required = owner_text value required

role_text : Option String → Bool → Result FleetError (Option String)
role_text none required = if required then err role_required else ok none
role_text (some s) required =
    if s == ""
    then (if required then err role_required else ok none)
    else if is_role s
    then ok (some s)
    else err role_invalid

unfoldable pub validate_role : Option String → Bool → Result FleetError (Option String)
unfolding role_text is_role
validate_role value required = role_text value required

-- `[a-z0-9-]{1,40}`
unfoldable pub is_requirement : String → Bool
is_requirement s = all_chars is_slug_or_dash s && leb 1 (chars s) && leb (chars s) 40

-- a GPU model is 1 to 120 characters, with no NUL, CR or LF
unfoldable pub is_bad_model : Option String → Bool
is_bad_model none = false
is_bad_model (some s) =
    not (leb 1 (chars s) && leb (chars s) 120) || any_char (λ n. eqb n 0 || eqb n 13 || eqb n 10) s

unfoldable pub validate_admission : Admission → Result FleetError Admission
validate_admission a = do
  raise_if
      (ltb_ℤ a.inventory_age_seconds (pos 0)
        || not (texts_eq a.requirements (sorted_set a.requirements))
        || any (λ s. not (is_requirement s)) a.requirements
        || ltb_ℤ a.min_memory_gb (pos 0)
        || not (member a.gpu_api gpu_apis)
        || ltb_ℤ a.min_gpu_memory_gb (pos 0)
        || is_bad_model a.gpu_model)
      admission_invalid
  ok a

unfoldable pub check_binding : Option WorkerBinding → String → Result FleetError (Unit {0})
check_binding none owner_task = ok tt
check_binding (some b) owner_task =
    raise_if
      (not (b.objective_id == owner_task)
        || is_blank b.attempt_id
        || is_blank b.objective_id
        || is_blank b.owner_id
        || not (is_hex_of 64 b.handoff_sha256))
      worker_binding_invalid

-- `normalize_node_id(value) != value`, after a refusal of the value
unfoldable pub check_node_id : String → FleetError → Result FleetError (Unit {0})
check_node_id node_id e = do
  normalized ← normalize_node_id node_id
  raise_if (not (normalized == node_id)) e

unfoldable pub bad_policy : Lease → Bool
bad_policy l =
    not (member l.workload_class lease_workload_classes)
    || not (member l.phase lease_phases)
    || not (leb_ℤ (pos 0) l.priority && leb_ℤ l.priority (pos 1000))
    || (l.preemptible && not (member l.workload_class preemptible_workload_classes))

unfoldable pub unprotected : Lease → Bool
unprotected l =
    member l.workload_class protected_workload_classes
    && (is_unset l.owner_thread || is_unset l.owner_run)

unfoldable pub validate_ttl : ℤ → Result FleetError ℤ
validate_ttl ttl_seconds = do
  raise_if (not (leb_ℤ (pos 60) ttl_seconds && leb_ℤ ttl_seconds (pos 86400))) ttl_out_of_range
  ok ttl_seconds

module _ (is_uuid : String → Bool) where
  unfoldable pub validate_lease : Lease → Result FleetError Lease
  validate_lease l = do
    check_binding l.worker_binding l.owner_task
    dispatch_adapter l.dispatch_adapter
    raise_if (not (is_uuid l.lease_id)) lease_id_invalid
    raise_if (ltb l.generation 1 || not (is_hex_of 32 l.nonce)) lease_identity_invalid
    check_node_id l.node_id lease_identity_invalid
    validate_owner_id (some l.owner_task) true
    validate_owner_id l.owner_thread false
    validate_owner_id l.owner_run false
    validate_role l.role false
    raise_if (bad_policy l) workload_policy_invalid
    raise_if (unprotected l) protected_owner_required
    raise_if (leb l.expires_at l.acquired_at) expiry_invalid
    raise_if (not (is_commit l.control_commit)) commit_invalid
    validate_admission l.admission
    ok l

  -- the loop over the leases; the result is the greatest generation
  unfoldable pub validate_items : Dict Lease → ℕ → Result FleetError ℕ
  validate_items [] maximum = ok maximum
  validate_items ((node_id, lease) ∷ d) maximum = do
    check_node_id node_id store_node_invalid
    validated ← validate_lease lease
    raise_if (not (validated.node_id == node_id)) store_node_mismatch
    validate_items d (max maximum validated.generation)

  unfoldable pub validate_event : AuditEvent → Result FleetError (Unit {0})
  validate_event e = do
    raise_if (not (member e.event ("acquire" ∷ "renew" ∷ "release" ∷ "reap" ∷ "preempt" ∷ [])))
        audit_event_invalid
    check_node_id e.node_id audit_event_invalid
    raise_if (ltb e.generation 1 || ltb 120 (chars e.reason)) audit_event_invalid

  unfoldable pub validate_audit : List AuditEvent → Result FleetError (Unit {0})
  validate_audit [] = ok tt
  validate_audit (e ∷ es) = do validate_event e; validate_audit es

  unfoldable pub validate_lease_store : LeaseStore → Result FleetError LeaseStore
  validate_lease_store s = do
    raise_if
        (not (s.schema == "codex_fleet_leases.v2")
          || ltb s.generation 0
          || ltb 200 (length s.audit))
        store_invalid
    maximum ← validate_items s.leases 0
    raise_if (ltb s.generation maximum) generation_backward
    validate_audit s.audit
    ok s
