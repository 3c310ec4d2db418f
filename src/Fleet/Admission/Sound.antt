-- ===== src/Fleet/Admission/Sound.antt =====
-- What a gate that lets a lease pass has tested.
use opl_flow.Base.{
  String, Bool, true, false, not, ◌&&◌, ◌≡◌, refl, inl, inr, Option, some, List, [], ◌∷◌, ◌++◌,
  texts_eq→eq, sorted_set, subset, arith, eq_iff, is_empty, ok, Result-cases, Bool-cases,
}
use opl_flow.Base.Int.{ℤ, pos, ltb_ℤ, leb_ℤ, ◌≤ℤ◌, eqb_ℤ→eq}
use opl_flow.Fleet.Common.{normalize_node_id}
use opl_flow.Fleet.Lease.Data.{Instant, Admission, Lease, seconds_from}
use opl_flow.Fleet.Lease.Validate.{validate_lease, validate_owner_id, validate_admission}
use opl_flow.Fleet.Lease.Store.{lease_is_expired}
use opl_flow.Fleet.Lease.Sound.{validate_lease-eq-ok}
use opl_flow.Fleet.Admission.Checks.{failing, NoneFail, failing-NoneFail}
use opl_flow.Fleet.Admission.Roles.{NodeRegistry}
use opl_flow.Fleet.Admission.Doctor.{
  DoctorReadback, Requirement, is_set, admission_checks, assert_lease_admission,
  build_admission_receipt,
}
use opl_flow.Fleet.Admission.Verify.{
  Expectation, Named, Verification, same_option, is_day_bound, named_expectation, check_expectation,
  identity_checks, freshness_checks, verify_lease_record,
}

is_empty-append : {A : Type 0} (xs ys : List A) → is_empty (xs ++ ys) ≡ is_empty xs && is_empty ys
is_empty-append [] ys = refl
is_empty-append (x ∷ xs) ys = refl

-- what a successful verification tells of the lease
pub record Verifies (l : Lease) (q : Expectation) (now : Instant) : Type 0 where
  pub node : normalize_node_id q.node_id ≡ ok l.node_id
  pub id : l.lease_id ≡ q.lease_id
  pub generation : pos l.generation ≡ q.generation
  pub task : l.owner_task ≡ q.owner_task
  pub class : l.workload_class ≡ q.workload_class
  pub phase : l.phase ≡ q.phase
  pub preemptible : l.preemptible ≡ q.preemptible
  pub adapter : l.dispatch_adapter ≡ q.expected_dispatch_adapter
  pub commit : l.control_commit ≡ q.expected_control_commit
  pub current : q.current_control_commit ≡ q.expected_control_commit
  pub live : lease_is_expired l now ≡ false
  pub lasting : q.min_ttl_seconds ≤ℤ seconds_from now l.expires_at
  pub fresh : seconds_from l.admission.checked_at now ≤ℤ q.max_admission_age_seconds
  pub requirements : l.admission.requirements ≡ sorted_set q.required
  pub healthy :
      (l.admission.power_ok ≡ true)
      × (l.admission.storage_ok ≡ true)
      × (l.admission.thermal_ok ≡ true)
      × (l.admission.work_volume_ready ≡ true)
  pub idle : (l.admission.interactive_busy ≡ false) × (l.admission.busy ≡ false)

owner_task-same :
    (s : String) (o : Option String) → validate_owner_id (some s) true ≡ ok o → o ≡ some s
unfolding validate_owner_id
owner_task-same s o h = ground arith

named_expectation-names :
    (q : Expectation) (registry : NodeRegistry) (n : Named)
    → named_expectation q registry ≡ ok n
    → (normalize_node_id q.node_id ≡ ok n.node_id) × (n.owner_task ≡ some q.owner_task)
unfolding named_expectation
named_expectation-names q registry n h =
    elim (Result-cases (validate_owner_id (some q.owner_task) true)) [
      | inr (x, e) ↦ absurd (ground (arith, e))
      | inl (o, e) ↦ ground (arith, e, owner_task-same q.owner_task o e)
    ]

check_expectation-ttl :
    (q : Expectation) {t : Unit {0}}
    → check_expectation q ≡ ok t
    → is_day_bound q.min_ttl_seconds ≡ true
unfolding check_expectation
check_expectation-ttl q h = ground arith

-- A lease with a second left has not expired.
live_for :
    (l : Lease) (now : Instant) (z : ℤ)
    → leb_ℤ (pos 1) z ≡ true
    → ltb_ℤ (seconds_from now l.expires_at) z ≡ false
    → lease_is_expired l now ≡ false
unfolding lease_is_expired seconds_from
live_for l now z h h' = ground arith

lasting_from : (a b : ℤ) → ltb_ℤ b a ≡ false → a ≤ℤ b
lasting_from a b h = ground arith

fresh_from : (a b : ℤ) → not (leb_ℤ (pos 0) a && leb_ℤ a b) ≡ false → a ≤ℤ b
fresh_from a b h = ground arith

same_task :
    (s t : String) (o : Option String) → o ≡ some t → not (same_option (some s) o) ≡ false → s ≡ t
unfolding same_option
same_task s t o e h = ground (arith, eq_iff s t)

module _ (is_uuid : String → Bool) where
  -- A lease that is verified is the one expected: the node, the id, the generation, the task, the
  -- class, the phase, the preemptibility, the adapter and the control commit are as expected, the
  -- commit is the current one, the lease has not expired and lasts for at least the time asked
  -- for, and the admission that it rests on is recent enough, met the requirements, and found the
  -- node healthy and idle.
  pub verify_lease_record-Verifies :
      (l : Lease) (q : Expectation) (registry : NodeRegistry) (now : Instant) (v : Verification)
      → verify_lease_record is_uuid l q registry now ≡ ok v
      → Verifies l q now
  unfolding verify_lease_record
  verify_lease_record-Verifies l q registry now v h =
      elim (Result-cases (validate_lease is_uuid l)) [
        | inr (x, e) ↦ absurd (ground (arith, e))
        | inl (l', valid) ↦ elim (Result-cases (named_expectation q registry)) [
          | inr (x, e) ↦ absurd (ground (arith, valid, e))
          | inl (n, named) ↦
              let same = validate_lease-eq-ok is_uuid l l' valid in
              let accepted : is_empty (failing (identity_checks l q n))
                    && is_empty (failing (freshness_checks l q now))
                  ≡ true =
                ground (
                  arith,
                  valid,
                  named,
                  same,
                  is_empty-append (failing (identity_checks l q n))
                      (failing (freshness_checks l q now)),
                ) in
              let bounded : is_day_bound q.min_ttl_seconds ≡ true =
                ground (arith, valid, named, check_expectation-ttl q {t = tt}) in
              let (on_node, task) = named_expectation-names q registry n named in
              let (
                at_node,
                (
                  _,
                  (
                    at_id,
                    (
                      at_generation,
                      (
                        at_task,
                        (
                          _,
                          (
                            _,
                            (
                              at_class,
                              (at_phase, (at_flag, (at_commit, (at_adapter, (at_current, _))))),
                            ),
                          ),
                        ),
                      ),
                    ),
                  ),
                ),
              ) =
                failing-NoneFail (identity_checks l q n) (ground (arith, accepted)) in
              let (lasts, (ages, (asks, (_, (_, (_, (_, (concludes, (occupied, _))))))))) =
                failing-NoneFail (freshness_checks l q now) (ground (arith, accepted)) in
              record {
                node = ground (arith, on_node, at_node, eq_iff l.node_id n.node_id);
                id = ground (arith, at_id, eq_iff l.lease_id q.lease_id);
                generation =
                    eqb_ℤ→eq (pos l.generation) q.generation (ground (arith, at_generation));
                task =
                    same_task l.owner_task q.owner_task n.owner_task task (ground (arith, at_task));
                class = ground (arith, at_class, eq_iff l.workload_class q.workload_class);
                phase = ground (arith, at_phase, eq_iff l.phase q.phase);
                preemptible = ground (arith, at_flag);
                adapter =
                    ground
                      (arith, at_adapter, eq_iff l.dispatch_adapter q.expected_dispatch_adapter);
                commit =
                    ground (arith, at_commit, eq_iff l.control_commit q.expected_control_commit);
                current =
                    ground (
                      arith,
                      at_current,
                      eq_iff q.current_control_commit q.expected_control_commit,
                    );
                live = live_for l now q.min_ttl_seconds (ground (arith, bounded)) lasts;
                lasting = lasting_from q.min_ttl_seconds (seconds_from now l.expires_at) lasts;
                fresh =
                    fresh_from (seconds_from l.admission.checked_at now) q.max_admission_age_seconds
                      ages;
                requirements =
                    texts_eq→eq l.admission.requirements (sorted_set q.required)
                      (ground (arith, asks));
                healthy = ground (arith, concludes);
                idle = ground (arith, occupied);
              }
        ]
      ]

-- The gate and the receipt together: a node that is let pass gets a receipt that says so.
pub record Admits (d : DoctorReadback) (q : Requirement) (a : Admission) : Type 0 where
  pub requirements : a.requirements ≡ sorted_set q.required
  pub memory : a.min_memory_gb ≡ q.min_memory_gb
  pub gpu_api : a.gpu_api ≡ q.gpu_api
  pub gpu_memory : a.min_gpu_memory_gb ≡ q.min_gpu_memory_gb
  pub gpu_model : a.gpu_model ≡ q.gpu_model
  pub observed : a.checked_at ≡ d.checked_at
  pub able : subset q.required d.features ≡ true
  pub healthy :
      (a.power_ok ≡ true)
      × (a.storage_ok ≡ true)
      × (a.thermal_ok ≡ true)
      × (a.work_volume_ready ≡ true)
  pub idle : (a.interactive_busy ≡ false) × (a.busy ≡ false)

receipt-fields :
    (d : DoctorReadback) (q : Requirement) (a : Admission)
    → build_admission_receipt d q ≡ ok a
    → a ≡ record {
      checked_at = d.checked_at;
      inventory_age_seconds = d.inventory_age_seconds;
      requirements = sorted_set q.required;
      min_memory_gb = q.min_memory_gb;
      gpu_api = q.gpu_api;
      min_gpu_memory_gb = q.min_gpu_memory_gb;
      gpu_model = q.gpu_model;
      power_ok = is_set d.power_ok;
      storage_ok = is_set d.storage_ok;
      thermal_ok = is_set d.thermal_ok;
      interactive_busy = is_set d.interactive_busy;
      busy = is_set d.busy;
      work_volume_ready = is_set d.work_volume_ready;
    }
unfolding build_admission_receipt validate_admission
receipt-fields d q a h = ground arith

module _ (casefold : String → String) (d : DoctorReadback) (q : Requirement) where
  gate-NoneFail :
      {t : Unit {0}}
      → assert_lease_admission casefold d q ≡ ok t
      → NoneFail (admission_checks casefold d q)
  unfolding assert_lease_admission
  gate-NoneFail h =
      failing-NoneFail (admission_checks casefold d q)
        (ground (arith, Bool-cases (is_empty (failing (admission_checks casefold d q)))))

  -- A receipt for a node that the gate lets pass records the requirement, a healthy node and an
  -- idle one, and the node has every feature required.
  pub build_admission_receipt-Admits :
      (a : Admission) {t : Unit {0}}
      → assert_lease_admission casefold d q ≡ ok t
      → build_admission_receipt d q ≡ ok a
      → Admits d q a
  build_admission_receipt-Admits a gate h =
      let (
        _,
        (
          _,
          (
            _,
            (
              _,
              (
                _,
                (
                  _,
                  (
                    _,
                    (
                      power,
                      (storage, (thermal, (interactive, (_, (busy, (volume, (features, _))))))),
                    ),
                  ),
                ),
              ),
            ),
          ),
        ),
      ) =
        gate-NoneFail gate in
      let at = receipt-fields d q a h in
      rw at (record {
        requirements = refl;
        memory = refl;
        gpu_api = refl;
        gpu_memory = refl;
        gpu_model = refl;
        observed = refl;
        able = ground (arith, features);
        healthy = ground (arith, power, storage, thermal, volume);
        idle = ground (arith, interactive, busy);
      })
