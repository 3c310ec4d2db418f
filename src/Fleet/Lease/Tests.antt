-- ===== src/Fleet/Lease/Tests.antt =====
-- Runs of the lease transactions, and the theorems at concrete stores.
use opl_flow.Base.{
  ◌↔◌, some, String, Bool, true, false, ◌≡◌, refl, ◌≤◌, eq_iff, none, some, List, [], ◌∷◌, arith,
  eqb, ok, err, is_ok, ◌≢◌, last_n, member, texts_eq, sorted_set, insert_sorted,
}
use opl_flow.Base.Int.{pos}
use opl_flow.Base.Dict.{NodupKeys, lookup, insert, erase}
use opl_flow.Base.Text.{
  is_slug, is_slug_or_dash, is_hex, is_space, is_blank, is_hex_of, lstrip, rstrip, strip, take,
  lower, lower_char, has_pair, chars, digits_text, int_text,
}
use opl_flow.Base.Results.{Result}
use opl_flow.Fleet.Common.{
  FleetError, cas_mismatch, node_already_leased, is_node_id, is_owner_id, is_role, is_commit,
  dash_runs, is_path_like, node_slug, normalize_node_id, dispatch_adapter,
}
use opl_flow.Fleet.Lease.Data.{
  Instant, Admission, Lease, LeaseStore, StoreFile, missing, stored, empty_lease_store,
}
use opl_flow.Fleet.Lease.Validate.{
  validate_owner_id, validate_role, is_requirement, is_bad_model, validate_admission, check_binding,
  check_node_id, bad_policy, unprotected, validate_ttl, validate_lease, validate_items,
  validate_event, validate_audit, validate_lease_store,
}
use opl_flow.Fleet.Lease.Store.{
  upgrade, read_lease_store, write_lease_store, lease_is_expired, audit_lease, reap_one, reap_items,
  reap_expired_leases, active_items,
}
use opl_flow.Fleet.Lease.Records.{
  acquire_in, acquire_lease_record, assert_lease_cas, next_phase, bad_transition, normalize_option,
  write_if_reaped, renew_in, renew_lease_record, release_in, release_lease_record, fleet_lease_reap,
}
use opl_flow.Fleet.Lease.Requests.{
  AcquireRequest, Credential, lease_fields, build_lease, matches_preempt, is_preemptible_by,
  make_room,
}
use opl_flow.Fleet.Lease.Reaping.{IsReaped, reap_expired_leases-IsReaped}
use opl_flow.Fleet.Lease.Transactions.{Puts, Takes}
use opl_flow.Fleet.Lease.Fencing.{Distinct, IsFenced}
use opl_flow.Fleet.Lease.Files.{acquire_lease_record-Puts, release_lease_record-Takes}
use opl_flow.Fleet.Lease.Runs.{
  Transaction, acquire, renew, reap, run, run-Distinct, retired_forever,
}
use opl_flow.Fleet.Lease.Ownership.{
  MayPreempt, Renews, acquire_active_needs_preempt, acquire_active_refused,
  renew_lease_record-Renews,
}

-- unfolds all that the transactions call
unfoldable pub lease_code : Unit {0}
unfolding last_n member texts_eq sorted_set insert_sorted lookup insert erase is_slug
    is_slug_or_dash is_hex is_space is_blank is_hex_of lstrip rstrip strip take lower lower_char
    has_pair digits_text int_text is_node_id is_owner_id is_role is_commit dash_runs is_path_like
    node_slug normalize_node_id dispatch_adapter validate_owner_id validate_role is_requirement
    is_bad_model validate_admission check_binding check_node_id bad_policy unprotected validate_ttl
    validate_lease validate_items validate_event validate_audit validate_lease_store upgrade
    read_lease_store write_lease_store lease_is_expired audit_lease reap_one reap_items
    reap_expired_leases active_items lease_fields build_lease matches_preempt is_preemptible_by
    make_room acquire_in acquire_lease_record assert_lease_cas next_phase bad_transition
    normalize_option write_if_reaped renew_in renew_lease_record release_in release_lease_record
    fleet_lease_reap
lease_code = tt

-- stands for `uuid.UUID` on the ids of these examples
abbrev pub sample_uuid : String → Bool
sample_uuid s = eqb (chars s) 36

abbrev pub sample_admission : Admission
sample_admission = record {
  checked_at = 1000000;
  inventory_age_seconds = pos 5;
  requirements = "cuda" ∷ "python" ∷ [];
  min_memory_gb = pos 8;
  gpu_api = "cuda";
  min_gpu_memory_gb = pos 4;
  gpu_model = none;
  power_ok = true;
  storage_ok = true;
  thermal_ok = true;
  interactive_busy = false;
  busy = false;
  work_volume_ready = true;
}

abbrev pub sample_request : AcquireRequest
sample_request = record {
  node_id = "Mac Studio";
  owner_task = "bd-12";
  owner_thread = none;
  owner_run = none;
  role = none;
  workload_class = "background";
  priority = pos 10;
  preemptible = true;
  phase = "interruptible";
  ttl_seconds = pos 600;
  control_revision = "0123456789abcdef0123456789abcdef01234567";
  admission = sample_admission;
  preempt_lease_id = none;
  preempt_generation = none;
  preempt_nonce = none;
  dispatch_adapter_name = "lease-only";
  worker_binding = none;
  drawn_id = "11111111-2222-3333-4444-555555555555";
  drawn_nonce = "00112233445566778899aabbccddeeff";
}

abbrev pub sample_lease : Lease
sample_lease = record {
  lease_id = "11111111-2222-3333-4444-555555555555";
  generation = 1;
  nonce = "00112233445566778899aabbccddeeff";
  node_id = "mac-studio";
  owner_task = "bd-12";
  owner_thread = none;
  owner_run = none;
  role = none;
  workload_class = "background";
  priority = pos 10;
  preemptible = true;
  phase = "interruptible";
  acquired_at = 2000000;
  expires_at = 602000000;
  control_commit = "0123456789abcdef0123456789abcdef01234567";
  admission = sample_admission;
  dispatch_adapter = "lease-only";
  worker_binding = none;
}

abbrev pub sample_store : LeaseStore
sample_store = record {
  schema = "codex_fleet_leases.v2";
  generation = 1;
  leases = ("mac-studio", sample_lease) ∷ [];
  audit =
      record {
        event = "acquire";
        at = 2000000;
        node_id = "mac-studio";
        lease_id = "11111111-2222-3333-4444-555555555555";
        generation = 1;
        reason = "controller-admitted";
      }
      ∷ [];
}

abbrev pub sample_file : StoreFile
sample_file = stored 0o600 sample_store

sample_acquired :
    acquire_lease_record sample_uuid sample_request 2000000 missing ≡ ok (sample_lease, sample_file)
unfolding lease_code
sample_acquired = refl

sample_read : read_lease_store sample_uuid sample_file ≡ ok sample_store
unfolding lease_code
sample_read = refl

abbrev outcome {ℓ} : {A : Type ℓ} → A → Result FleetError (A × StoreFile) → A × StoreFile
outcome a (ok p) = p
outcome a (err e) = (a, missing)

-- a request of a higher priority that names the lease of the sample store
abbrev high_request : AcquireRequest
high_request = record sample_request {
  owner_task = "bd-13";
  workload_class = "foreground";
  priority = pos 20;
  preemptible = false;
  phase = "non-interruptible";
  preempt_lease_id = some "11111111-2222-3333-4444-555555555555";
  preempt_generation = some 1;
  preempt_nonce = some "00112233445566778899aabbccddeeff";
  drawn_id = "66666666-7777-8888-9999-000000000000";
}

abbrev sample_credential : Credential
sample_credential = record {
  node_id = "mac-studio";
  lease_id = "11111111-2222-3333-4444-555555555555";
  generation = 1;
  nonce = "00112233445566778899aabbccddeeff";
  owner_task = "bd-12";
}

abbrev preempted : Lease × StoreFile
preempted = outcome sample_lease (acquire_lease_record sample_uuid high_request 3000000 sample_file)

abbrev renewed : Lease × StoreFile
renewed = outcome sample_lease (
    renew_lease_record sample_uuid sample_credential (pos 60) (some "non-interruptible")
      "ffeeddccbbaa99887766554433221100" 3000000 sample_file)

abbrev released : Lease × StoreFile
released =
    outcome sample_lease (release_lease_record sample_uuid sample_credential 3000000 sample_file)

preempted_generation : preempted.0.generation ≡ 2
unfolding lease_code
preempted_generation = refl

renewed_twice :
    renew_lease_record sample_uuid sample_credential
      (pos 60)
      none
      "ffeeddccbbaa99887766554433221100"
      4000000
      renewed.1
    ≡ err cas_mismatch
unfolding lease_code
renewed_twice = refl

sample_unique : NodupKeys sample_store.leases
unfolding lookup
sample_unique = (refl, tt)

abbrev sample_run : List Transaction
sample_run =
    acquire sample_request 2000000
    ∷ renew sample_credential (pos 60) none "ffeeddccbbaa99887766554433221100" 3000000
    ∷ acquire sample_request 4000000
    ∷ reap none 900000000
    ∷ []

run-Distinct_example :
    (s : LeaseStore) × (read_lease_store sample_uuid (run sample_uuid missing sample_run) ≡ ok s)
    × Distinct s
run-Distinct_example = run-Distinct sample_uuid sample_run

-- the store in which the preempting lease has taken the place of the first
abbrev store_of : StoreFile → LeaseStore
store_of missing = empty_lease_store
store_of (stored mode s) = s

abbrev preempted_store : LeaseStore
preempted_store = store_of preempted.1

preempted-IsFenced : IsFenced sample_uuid preempted.1 preempted_store
unfolding lease_code
preempted-IsFenced = record {
  readable = refl;
  unique = (refl, tt);
  distinct = λ j k l m ej ek same. ground (arith, eq_iff "mac-studio" j, eq_iff "mac-studio" k);
}

preempted_retires :
    (k : String) (l : Lease) → lookup k preempted_store.leases ≡ some l → l.generation ≢ 1
unfolding lease_code
preempted_retires k l e = ground (arith, eq_iff "mac-studio" k)

preempted_counts : 1 ≤ preempted_store.generation
unfolding lease_code
preempted_counts = omega arith

retired_forever_example :
    (u : LeaseStore) × (read_lease_store sample_uuid (run sample_uuid preempted.1 sample_run)
      ≡ ok u)
    × ((k : String) (now : Instant)
        → is_ok (assert_lease_cas (lookup k u.leases) sample_credential now) ≡ false)
retired_forever_example =
    retired_forever sample_uuid sample_run preempted.1 preempted_store sample_credential
      preempted-IsFenced preempted_counts preempted_retires

acquire_lease_record-Puts_example :
    (node : String) × (t : LeaseStore) × (normalize_node_id "Mac Studio" ≡ ok node)
    × Puts empty_lease_store node sample_lease t
    × (read_lease_store sample_uuid sample_file ≡ ok t)
unfolding lease_code
acquire_lease_record-Puts_example =
    acquire_lease_record-Puts sample_uuid sample_request 2000000 missing sample_file
      empty_lease_store sample_lease refl tt refl

acquire_active_needs_preempt_example : MayPreempt sample_lease high_request
unfolding lease_code
acquire_active_needs_preempt_example =
    acquire_active_needs_preempt sample_uuid high_request 3000000 sample_file preempted.1
      sample_store "mac-studio" sample_lease preempted.0 refl (refl, tt) refl refl refl refl

acquire_active_refused_example :
    acquire_lease_record sample_uuid sample_request 3000000 sample_file ≡ err node_already_leased
unfolding lease_code
acquire_active_refused_example =
    acquire_active_refused sample_uuid sample_request 3000000 sample_file sample_store "mac-studio"
      sample_lease refl (refl, tt) refl (omega arith) (omega arith) refl refl refl

renew_lease_record-Renews_example :
    (node : String) × (m : Lease) × (normalize_node_id "mac-studio" ≡ ok node)
    × (lookup node sample_store.leases ≡ some m)
    × Renews sample_credential m renewed.0 3000000 (pos 60)
unfolding lease_code
renew_lease_record-Renews_example =
    renew_lease_record-Renews sample_uuid sample_credential (pos 60) (some "non-interruptible")
      "ffeeddccbbaa99887766554433221100" 3000000 sample_file renewed.1 sample_store renewed.0 refl
      refl

release_lease_record-Takes_example :
    (node : String) × (t : LeaseStore) × (normalize_node_id "mac-studio" ≡ ok node)
    × Takes sample_store node released.0 t
    × (read_lease_store sample_uuid released.1 ≡ ok t)
unfolding lease_code
release_lease_record-Takes_example =
    release_lease_record-Takes sample_uuid sample_credential 3000000 sample_file released.1
      sample_store released.0 refl refl

-- the lease has expired, and the reap is about another node
reap_expired_leases-IsReaped_example :
    (lookup "mac-studio" (reap_expired_leases sample_store 602000000 (some "dgx")).0.leases
      ≡ some sample_lease)
    ↔ ((lookup "mac-studio" sample_store.leases ≡ some sample_lease)
        × (¬ IsReaped (some "dgx") 602000000 "mac-studio" sample_lease))
reap_expired_leases-IsReaped_example =
    reap_expired_leases-IsReaped sample_store 602000000 (some "dgx") "mac-studio" sample_lease
      sample_unique
