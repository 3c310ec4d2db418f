-- ===== src/Fleet/Admission/Tests.antt =====
-- An admission and a verification, and the theorems at concrete values.
use opl_flow.Base.{
  String, Bool, true, false, ◌≡◌, refl, none, some, [], ◌∷◌, arith, eqb, err, member, subset,
  texts_eq, sorted_set, insert_sorted,
}
use opl_flow.Base.Int.{pos}
use opl_flow.Base.Dict.{lookup}
use opl_flow.Base.Text.{
  is_slug, is_slug_or_dash, is_hex, is_space, is_blank, is_hex_of, lstrip, rstrip, strip, take,
  lower, lower_char, has_pair, chars, starts_with, contains,
}
use opl_flow.Fleet.Common.{
  admission_rejected, is_node_id, is_owner_id, is_role, is_commit, dash_runs, is_path_like,
  node_slug, normalize_node_id, dispatch_adapter,
}
use opl_flow.Fleet.Lease.Data.{Admission, Lease, seconds_from}
use opl_flow.Fleet.Lease.Validate.{
  validate_owner_id, validate_role, is_requirement, is_bad_model, validate_admission, check_binding,
  check_node_id, bad_policy, unprotected, validate_lease,
}
use opl_flow.Fleet.Lease.Store.{lease_is_expired, lease_view, public_lease}
use opl_flow.Fleet.Admission.Checks.{failing, first_of_each, distinct_words}
use opl_flow.Fleet.Admission.Roles.{NodeRegistry, runner_role_nodes, assert_runner_role_node}
use opl_flow.Fleet.Admission.Doctor.{
  DoctorReadback, Requirement, is_ssh_only, matches_gpu, assert_lease_admission,
  build_admission_receipt,
}
use opl_flow.Fleet.Admission.Verify.{
  Expectation, Verification, same_option, role_on_node, named_expectation, check_expectation,
  freshness_checks, verify_lease_record,
}
use opl_flow.Fleet.Admission.Sound.{
  Verifies, Admits, verify_lease_record-Verifies, build_admission_receipt-Admits,
}
use opl_flow.Fleet.Admission.Fresh.{freshness_checks-admitted}

-- unfolds all that the gate and the verification call
unfoldable admission_code : Unit {0}
unfolding member texts_eq sorted_set insert_sorted subset lookup is_slug is_slug_or_dash is_hex
    is_space is_blank is_hex_of lstrip rstrip strip take lower lower_char has_pair starts_with
    contains is_node_id is_owner_id is_role is_commit dash_runs is_path_like node_slug
    normalize_node_id dispatch_adapter seconds_from validate_owner_id validate_role is_requirement
    is_bad_model validate_admission check_binding check_node_id bad_policy unprotected
    validate_lease lease_is_expired lease_view public_lease failing first_of_each distinct_words
    runner_role_nodes assert_runner_role_node is_ssh_only matches_gpu assert_lease_admission
    build_admission_receipt same_option role_on_node named_expectation check_expectation
    verify_lease_record
admission_code = tt

-- stands for `uuid.UUID` on the ids of these examples
abbrev sample_uuid : String → Bool
sample_uuid s = eqb (chars s) 36

-- stands for `str.casefold` on the lower-case names of these examples
abbrev sample_casefold : String → String
sample_casefold s = s

abbrev sample_doctor : DoctorReadback
sample_doctor = record {
  checked_at = 1000000;
  inventory_age_seconds = pos 5;
  approved = true;
  receipt_state = some "CURRENT";
  control_current = some true;
  inventory_fresh = true;
  codex_ready = true;
  ssh_reachable = some true;
  tailscale_online = some true;
  power_ok = some true;
  storage_ok = some true;
  thermal_ok = some true;
  interactive_busy = some false;
  busy = some false;
  work_volume_ready = some true;
  features = "cuda" ∷ "python" ∷ "ssh" ∷ [];
  memory_bytes = pos 17179869184;
  gpus = record { name = "rtx 4090"; apis = "cuda" ∷ []; memory_bytes = pos 8589934592 } ∷ [];
  admission_ready = true;
}

abbrev sample_requirement : Requirement
sample_requirement = record {
  required = "python" ∷ "cuda" ∷ [];
  min_memory_gb = pos 8;
  gpu_api = "cuda";
  min_gpu_memory_gb = pos 4;
  gpu_model = some "4090";
}

abbrev sample_admission : Admission
sample_admission = record {
  checked_at = 1000000;
  inventory_age_seconds = pos 5;
  requirements = "cuda" ∷ "python" ∷ [];
  min_memory_gb = pos 8;
  gpu_api = "cuda";
  min_gpu_memory_gb = pos 4;
  gpu_model = some "4090";
  power_ok = true;
  storage_ok = true;
  thermal_ok = true;
  interactive_busy = false;
  busy = false;
  work_volume_ready = true;
}

-- a node in use and without its work volume is refused for both
busy_node :
    assert_lease_admission sample_casefold
      (record sample_doctor { busy = some true; work_volume_ready = none })
      sample_requirement
    ≡ err (admission_rejected ("busy" ∷ "work-volume" ∷ []))
unfolding admission_code
busy_node = refl

abbrev sample_commit : String
sample_commit = "0123456789abcdef0123456789abcdef01234567"

abbrev sample_lease : Lease
sample_lease = record {
  lease_id = "11111111-2222-3333-4444-555555555555";
  generation = 1;
  nonce = "00112233445566778899aabbccddeeff";
  node_id = "mac-studio";
  owner_task = "bd-12";
  owner_thread = none;
  owner_run = none;
  role = some "trainer";
  workload_class = "background";
  priority = pos 10;
  preemptible = true;
  phase = "interruptible";
  acquired_at = 2000000;
  expires_at = 602000000;
  control_commit = sample_commit;
  admission = sample_admission;
  dispatch_adapter = "lease-only";
  worker_binding = none;
}

abbrev sample_registry : NodeRegistry
sample_registry = record {
  runner_roles = ("trainer", "mac-mini" ∷ "mac-studio" ∷ []) ∷ [];
  runner_role_workloads = [];
}

abbrev sample_expectation : Expectation
sample_expectation = record {
  node_id = "Mac Studio";
  role = some "trainer";
  lease_id = "11111111-2222-3333-4444-555555555555";
  generation = pos 1;
  owner_task = "bd-12";
  owner_thread = none;
  owner_run = none;
  workload_class = "background";
  phase = "interruptible";
  preemptible = true;
  min_ttl_seconds = pos 60;
  required = "python" ∷ "cuda" ∷ [];
  min_memory_gb = pos 8;
  max_admission_age_seconds = pos 300;
  expected_control_commit = sample_commit;
  current_control_commit = sample_commit;
  gpu_api = "cuda";
  min_gpu_memory_gb = pos 4;
  gpu_model = some "4090";
  expected_dispatch_adapter = "lease-only";
}

abbrev sample_verification : Verification
sample_verification = record {
  observed_at = 3000000;
  control_commit = sample_commit;
  lease = public_lease (some sample_lease) 3000000;
}

verify_lease_record-Verifies_example : Verifies sample_lease sample_expectation 3000000
unfolding admission_code
verify_lease_record-Verifies_example =
    verify_lease_record-Verifies sample_uuid sample_lease sample_expectation sample_registry 3000000
      sample_verification refl

build_admission_receipt-Admits_example : Admits sample_doctor sample_requirement sample_admission
unfolding admission_code
build_admission_receipt-Admits_example =
    build_admission_receipt-Admits sample_casefold sample_doctor sample_requirement sample_admission
      {t = tt} refl refl

freshness_checks-admitted_example :
    failing (freshness_checks sample_lease sample_expectation 3000000) ≡ []
unfolding admission_code
freshness_checks-admitted_example =
    freshness_checks-admitted sample_casefold sample_doctor sample_requirement sample_lease
      sample_expectation 3000000 tt refl refl
      (record {
        required = refl;
        memory = refl;
        gpu_api = refl;
        gpu_memory = refl;
        gpu_model = refl;
      })
      (omega arith) (omega arith) (omega arith)

abbrev trainer : String
trainer = "trainer"
