-- ===== src/Fleet/Admission/Fresh.antt =====
-- The gate before a lease is built, beside the verification before it is used.
use opl_flow.Base.{
  String, true, ◌≡◌, refl, inl, inr, ◌==◌, Option, none, some, List, [], ◌∷◌, member, texts_eq,
  sorted_set, arith, eq_iff, ok, Result-cases,
}
use opl_flow.Base.Int.{ℤ, pos, eqb_ℤ, ◌≤ℤ◌}
use opl_flow.Base.Dict.{lookup}
use opl_flow.Fleet.Common.{normalize_node_id}
use opl_flow.Fleet.Lease.Data.{Instant, Lease, seconds_from}
use opl_flow.Fleet.Lease.Validate.{validate_role}
use opl_flow.Fleet.Admission.Checks.{Check, failing, NoneFail}
use opl_flow.Fleet.Admission.Roles.{
  NodeRegistry, some_nodes, runner_role_nodes, assert_runner_role_node,
}
use opl_flow.Fleet.Admission.Doctor.{
  DoctorReadback, Requirement, assert_lease_admission, build_admission_receipt,
}
use opl_flow.Fleet.Admission.Verify.{Expectation, same_option, freshness_checks}
use opl_flow.Fleet.Admission.Sound.{build_admission_receipt-Admits}

-- The verification asks for what the lease was admitted for.
pub record SameRequirement (q : Requirement) (x : Expectation) : Type 0 where
  pub required : x.required ≡ q.required
  pub memory : x.min_memory_gb ≡ q.min_memory_gb
  pub gpu_api : x.gpu_api ≡ q.gpu_api
  pub gpu_memory : x.min_gpu_memory_gb ≡ q.min_gpu_memory_gb
  pub gpu_model : x.gpu_model ≡ q.gpu_model

texts_eq_refl : (xs : List String) → texts_eq xs xs ≡ true
unfolding texts_eq
texts_eq_refl [] = refl
texts_eq_refl (x ∷ xs) = ground (arith, eq_iff x x, texts_eq_refl xs)

same_option_refl : (o : Option String) → same_option o o ≡ true
unfolding same_option
same_option_refl none = refl
same_option_refl (some s) = ground (arith, eq_iff s s)

eqb_ℤ-same : (a b : ℤ) → a ≡ b → eqb_ℤ a b ≡ true
eqb_ℤ-same a b h = ground arith

eq_text : (s t : String) → s ≡ t → (s == t) ≡ true
eq_text s t h = ground (arith, eq_iff s t)

NoneFail-failing : (cs : List Check) → NoneFail cs → failing cs ≡ []
unfolding failing
NoneFail-failing [] h = refl
NoneFail-failing ((fails, word) ∷ cs) (h, hs) = ground (arith, NoneFail-failing cs hs)

-- A lease whose admission was received for a node that the gate let pass fails no test of a
-- verification that asks for the same, for as long as it lasts the time asked for and its
-- admission is recent enough.
pub freshness_checks-admitted :
    (casefold : String → String) (d : DoctorReadback) (q : Requirement) (l : Lease)
    (x : Expectation) (now : Instant) (t : Unit {0})
    → assert_lease_admission casefold d q ≡ ok t
    → build_admission_receipt d q ≡ ok l.admission
    → SameRequirement q x
    → x.min_ttl_seconds ≤ℤ seconds_from now l.expires_at
    → pos 0 ≤ℤ seconds_from d.checked_at now
    → seconds_from d.checked_at now ≤ℤ x.max_admission_age_seconds
    → failing (freshness_checks l x now) ≡ []
freshness_checks-admitted casefold d q l x now t gate receipt same lasts started recent =
    let a = build_admission_receipt-Admits casefold d q l.admission {t = t} gate receipt in
    let asked : texts_eq l.admission.requirements (sorted_set x.required) ≡ true =
      rw a.requirements (rw same.required (texts_eq_refl (sorted_set q.required))) in
    let memory =
      eqb_ℤ-same l.admission.min_memory_gb x.min_memory_gb
        (ground (arith, a.memory, same.memory)) in
    let api = eq_text l.admission.gpu_api x.gpu_api (ground (arith, a.gpu_api, same.gpu_api)) in
    let gpu =
      eqb_ℤ-same l.admission.min_gpu_memory_gb x.min_gpu_memory_gb
        (ground (arith, a.gpu_memory, same.gpu_memory)) in
    let model : same_option l.admission.gpu_model x.gpu_model ≡ true =
      rw a.gpu_model (rw same.gpu_model (same_option_refl q.gpu_model)) in
    NoneFail-failing (freshness_checks l x now) (
      ground (arith, lasts),
      (
        rw a.observed (ground (arith, started, recent)),
        (
          ground (arith, asked),
          (
            ground (arith, memory),
            (
              ground (arith, api),
              (
                ground (arith, gpu),
                (ground (arith, model), (ground (arith, a.healthy), (ground (arith, a.idle), tt))),
              ),
            ),
          ),
        ),
      ),
    )

-- A role that is allowed on a node is one that the registry lists, with the node among its nodes.
assert_runner_role_node-lists :
    (role node_id allowed : String) (registry : NodeRegistry)
    → assert_runner_role_node role node_id registry ≡ ok allowed
    → (node : String) × (nodes : List String) × (normalize_node_id node_id ≡ ok node)
      × (allowed ≡ role)
      × (lookup role registry.runner_roles ≡ some nodes)
      × (member node nodes ≡ true)
unfolding assert_runner_role_node runner_role_nodes validate_role
assert_runner_role_node-lists role node_id allowed registry h =
    elim (Result-cases (normalize_node_id node_id)) [
      | inr (x, e) ↦ absurd (ground (arith, e))
      | inl (node, e) ↦ elim (Result-cases (some_nodes (lookup role registry.runner_roles))) [
        | inr (x, e') ↦ absurd (ground (arith, e, e'))
        | inl (nodes, e') ↦
            (node, nodes, e, ground (arith, e, e'), ground (arith, e'), ground (arith, e, e'))
      ]
    ]
