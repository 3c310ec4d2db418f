-- ===== src/Fleet/Dispatch/Bounded.antt =====
-- The bounds of a request that is accepted.
use opl_flow.Base.{
  ℕ, String, true, false, not, ◌||◌, ◌≡◌, sym, ◌∙◌, ap, inl, inr, ◌>>=◌, ◌>>◌, Option, List, ◌==◌,
  is_some, arith, member, ok, Result-cases,
}
use opl_flow.Base.Int.{pos, ◌≤ℤ◌}
use opl_flow.Json.{Value}
use opl_flow.Fleet.Common.{
  lease_workload_classes, preemptible_workload_classes, lease_phases, dispatch_adapters,
  dispatch_adapter,
}
use opl_flow.Fleet.Lease.Validate.{validate_ttl, validate_role}
use opl_flow.Fleet.Lease.Records.{normalize_option}
use opl_flow.Fleet.Admission.Roles.{NodeRegistry}
use opl_flow.Fleet.Dispatch.Requirements.{Requirements, read_execution_requirements}
use opl_flow.Fleet.Dispatch.Request.{
  request_value, DispatchArgs, Request, worker_handoff, binding_of, required_of, check_runner_role,
  requested, check_values, placed, dispatch_request,
}

-- What every accepted request satisfies.
pub record IsBounded (r : Request) : Type 0 where
  pub adapter : member r.adapter dispatch_adapters ≡ true
  pub priority : (pos 0 ≤ℤ r.priority) × (r.priority ≤ℤ pos 1000)
  pub ttl : (pos 60 ≤ℤ r.ttl_seconds) × (r.ttl_seconds ≤ℤ pos 86400)
  pub memory : (pos 0 ≤ℤ r.min_memory_gb) × (pos 0 ≤ℤ r.min_gpu_memory_gb)
  pub class : member r.workload_class lease_workload_classes ≡ true
  pub phase : member r.phase lease_phases ≡ true
  pub preemptible :
      (not r.preemptible || member r.workload_class preemptible_workload_classes) ≡ true
  pub runner : (not (r.adapter == "github-runner") || is_some r.role) ≡ true
  pub local : (not (r.adapter == "local-codex") || not (is_some r.node_id)) ≡ true

-- the values that the tests let pass
record IsChecked (r : Request) : Type 0 where
  priority : (pos 0 ≤ℤ r.priority) × (r.priority ≤ℤ pos 1000)
  ttl : (pos 60 ≤ℤ r.ttl_seconds) × (r.ttl_seconds ≤ℤ pos 86400)
  memory : (pos 0 ≤ℤ r.min_memory_gb) × (pos 0 ≤ℤ r.min_gpu_memory_gb)
  class : member r.workload_class lease_workload_classes ≡ true
  phase : member r.phase lease_phases ≡ true
  preemptible : (not r.preemptible || member r.workload_class preemptible_workload_classes) ≡ true

check_values-IsChecked : (r : Request) {t : Unit {0}} → check_values r ≡ ok t → IsChecked r
unfolding check_values validate_ttl
check_values-IsChecked r h = record {
  priority = ground arith;
  ttl = ground arith;
  memory = ground arith;
  class = ground arith;
  phase = ground arith;
  preemptible = ground arith;
}

module _ (size : Value → ℕ) (fingerprint : Value → String) where
  placed-role :
      (a : DispatchArgs) (registry : NodeRegistry) (r r' : Request)
      → placed size fingerprint a registry r ≡ ok r'
      → (r' ≡ record r { role = r'.role; node_id = r'.node_id })
        × ((not (r.adapter == "github-runner") || is_some r'.role) ≡ true)
        × ((not (r.adapter == "local-codex") || not (is_some r'.node_id)) ≡ true)
  unfolding placed check_runner_role
  placed-role a registry r r' h = elim (Result-cases (validate_role a.role false)) [
    | inr (e, bad) ↦ absurd (ground (arith, bad))
    | inl (role, e) ↦ elim (Result-cases (normalize_option a.node_id)) [
      | inr (e', bad) ↦ absurd (ground (arith, e, bad))
      | inl (node, e') ↦ (ground (arith, e, e'), ground (arith, e, e'), ground (arith, e, e'))
    ]
  ]

  accepted :
      (a : DispatchArgs) (registry : NodeRegistry) (q : Requirements) (required : List String)
      (r : Request) (handoff : Option Value) {t : Unit {0}}
      → dispatch_adapter (request_value a.adapter q.adapter) ≡ ok t
      → (do
        check_values (requested a q required)
        r' ← placed size fingerprint a registry (requested a q required)
        binding ← binding_of size fingerprint handoff
        ok (record r' { worker_binding = binding }))
        ≡ ok r
      → IsBounded r
  accepted a registry q required r handoff known h =
      elim (Result-cases (check_values (requested a q required))) [
        | inr (e, bad) ↦ absurd (ground (arith, bad))
        | inl (t, e1) ↦
            elim (Result-cases (placed size fingerprint a registry (requested a q required))) [
              | inr (e, bad) ↦ absurd (ground (arith, e1, bad))
              | inl (r', e2) ↦ elim (Result-cases (binding_of size fingerprint handoff)) [
                | inr (e, bad) ↦ absurd (ground (arith, e1, e2, bad))
                | inl (binding, e3) ↦
                    let k = check_values-IsChecked (requested a q required) e1 in
                    let (same, runner, local) =
                      placed-role a registry (requested a q required) r' e2 in
                    let whole : record (requested a q required) {
                      role = r'.role;
                      node_id = r'.node_id;
                      worker_binding = binding;
                    }
                        ≡ r =
                      ap (λ (x : Request). record x { worker_binding = binding }) (sym same)
                      ∙ ground (arith, e1, e2, e3) in
                    rw (← whole) (record {
                      adapter = unfold dispatch_adapter in ground (arith, known);
                      priority = k.priority;
                      ttl = k.ttl;
                      memory = k.memory;
                      class = k.class;
                      phase = k.phase;
                      preemptible = k.preemptible;
                      runner = runner;
                      local = local;
                    })
              ]
            ]
      ]

  -- Every accepted request has a known adapter, a priority from 0 to 1000, a term from 60 to 86400
  -- seconds, no negative memory, a known class and phase, is preemptible only for a class that may
  -- be, has a role if it is for a GitHub runner, and no node if it is run where it is made.
  pub dispatch_request-IsBounded :
      (a : DispatchArgs) (registry : NodeRegistry) (r : Request)
      → dispatch_request size fingerprint a registry ≡ ok r
      → IsBounded r
  unfolding dispatch_request
  dispatch_request-IsBounded a registry r h =
      elim (Result-cases (worker_handoff size fingerprint a.handoff a.owner_task)) [
        | inr (e, bad) ↦ absurd (ground (arith, bad))
        | inl (handoff, e1) ↦
            elim (Result-cases (read_execution_requirements size a.requirements)) [
              | inr (e, bad) ↦ absurd (ground (arith, e1, bad))
              | inl (q, e2) ↦
                  elim (Result-cases (dispatch_adapter (request_value a.adapter q.adapter))) [
                    | inr (e, bad) ↦ absurd (ground (arith, e1, e2, bad))
                    | inl (t, e3) ↦
                        elim (Result-cases (required_of size fingerprint a.requires q.requires)) [
                          | inr (e, bad) ↦ absurd (ground (arith, e1, e2, e3, bad))
                          | inl (required, e4) ↦
                              accepted a registry q required r handoff {t = t} e3
                                (ground (arith, e1, e2, e3, e4))
                        ]
                  ]
            ]
      ]
