-- ===== src/Fleet/Common.antt =====
-- scripts/opl_fleet_parts/fleet_common.py: the vocabularies, the identifier patterns and the
-- normal form of a node id. An error is a constructor for each message; a message that quotes the
-- value it refuses leaves the value out.
use Prim.Native.Char.{code}
use opl_flow.Base.{
  ℕ, String, Bool, true, false, not, ◌&&◌, ◌||◌, List, [], ◌∷◌, member, leb, eqb, if◌then◌else◌, ok,
  raise_if, ◌>>◌,
}
use opl_flow.Base.Results.{Result}
use opl_flow.Base.Text.{
  is_slug, is_slug_or_dash, is_lower, is_upper, is_digit, is_hex_of, is_space, chars, all_chars,
  any_char, ends_in, strip, rstrip, take, lower, has_pair,
}

pub data FleetError : Type 0 where
  invalid_node_id unknown_dispatch_adapter : FleetError
  owner_required owner_invalid role_required role_invalid : FleetError
  admission_invalid worker_binding_invalid lease_id_invalid lease_identity_invalid : FleetError
  workload_policy_invalid protected_owner_required expiry_invalid commit_invalid : FleetError
  store_invalid store_node_invalid store_node_mismatch generation_backward : FleetError
  audit_event_invalid store_mode active_v1_state : FleetError
  ttl_out_of_range priority_out_of_range : FleetError
  node_already_leased cas_mismatch not_preemptible : FleetError
  no_active_lease lease_expired owner_mismatch phase_transition_invalid : FleetError
  unknown_runner_role role_bars_node role_bars_workload : FleetError
  minimum_memory_negative gpu_requirement_invalid : FleetError
  expectation_invalid freshness_invalid control_commit_invalid : FleetError
  admission_rejected verification_failed : List String → FleetError
  control_route_invalid control_command_invalid control_route_unavailable : FleetError
  control_action_invalid control_failed status_not_json binding_unavailable : FleetError
  no_transport alias_invalid status_invalid : FleetError
  runner_inventory_unavailable runner_inventory_not_json runner_name_not_unique : FleetError
  transaction_mode transaction_active transaction_missing transaction_owner : FleetError
  runner_active runner_online runner_not_started runner_not_online : FleetError
  shutdown_unconfirmed runner_not_active : FleetError
  gpu_api_unknown minimum_gpu_memory_negative : FleetError
  requirements_not_object requirements_too_large requirements_not_json requirements_unreadable :
      FleetError
  requirements_fields_invalid requirements_list_invalid lease_requirements_invalid : FleetError
  -- the field of the requirements that is invalid
  requirements_field_invalid : String → FleetError
  requirements_workload_preemptible : FleetError
  handoff_refused dispatch_owner_mismatch dispatch_gpu_api dispatch_gpu_model : FleetError
  dispatch_priority dispatch_workload dispatch_phase dispatch_workload_preemptible : FleetError
  dispatch_role_required dispatch_local_node : FleetError
  dispatch_id_invalid dispatch_lease_unavailable no_dispatch_candidate no_fresh_admission :
      FleetError
  runner_not_dispatched no_acquire_route remote_codex_not_ready : FleetError
  not_ssh_session dispatch_task_mismatch dispatch_thread_mismatch dispatch_run_mismatch : FleetError
  handoff_mismatch argv_not_json argv_invalid : FleetError
  -- a `ValueError` of `datetime.fromisoformat`, which is no `FleetError`
  not_a_time : FleetError
  execution_result_invalid : FleetError
  execution_timeout_invalid execution_cwd_invalid ssh_route_unavailable : FleetError
  -- the error of a start, and that of the cleanup after it
  cleanup_failed : FleetError → FleetError → FleetError

abbrev pub lease_workload_classes : List String
lease_workload_classes =
    "p0-release" ∷ "foreground" ∷ "background" ∷ "experiment" ∷ "guest" ∷ "job" ∷ "vm" ∷ []

abbrev pub preemptible_workload_classes : List String
preemptible_workload_classes = "background" ∷ "experiment" ∷ []

abbrev pub protected_workload_classes : List String
protected_workload_classes = "p0-release" ∷ "guest" ∷ "job" ∷ "vm" ∷ []

abbrev pub lease_phases : List String
lease_phases = "interruptible" ∷ "non-interruptible" ∷ []

-- the keys of `DISPATCH_ADAPTERS`
abbrev pub dispatch_adapters : List String
dispatch_adapters =
    "local-codex" ∷ "lease-only" ∷ "github-runner" ∷ "ssh-session" ∷ "remote-codex" ∷ []

abbrev pub gpu_apis : List String
gpu_apis = "any" ∷ "cuda" ∷ "metal" ∷ []

-- `[A-Za-z0-9]`
abbrev is_alnum : ℕ → Bool
is_alnum n = is_lower n || is_upper n || is_digit n

-- `[A-Za-z0-9._:@-]`
abbrev is_owner_char : ℕ → Bool
is_owner_char n = is_alnum n || eqb n b'.' || eqb n b'_' || eqb n b':' || eqb n b'@' || eqb n b'-'

-- `NODE_ID_PATTERN.fullmatch`
unfoldable pub is_node_id : String → Bool
is_node_id String.[] = false
is_node_id (String.◌∷◌ c String.[]) = is_slug (code c)
is_node_id (String.◌∷◌ c (String.◌∷◌ d s)) =
    let rest = String.◌∷◌ d s in
    is_slug (code c)
    && all_chars is_slug_or_dash rest
    && ends_in is_slug rest
    && leb (chars rest) 62

-- `OWNER_ID_PATTERN.fullmatch`
unfoldable pub is_owner_id : String → Bool
is_owner_id String.[] = false
is_owner_id (String.◌∷◌ c s) = is_alnum (code c) && all_chars is_owner_char s && leb (chars s) 127

-- `ROLE_PATTERN.fullmatch`
unfoldable pub is_role : String → Bool
is_role String.[] = false
is_role (String.◌∷◌ c s) = is_slug (code c) && all_chars is_slug_or_dash s && leb (chars s) 62

-- `COMMIT_PATTERN.fullmatch`
unfoldable pub is_commit : String → Bool
is_commit s = is_hex_of 40 s

-- `re.sub(r"[^a-z0-9]+", "-", s)`; the flag says that the run before `s` is replaced already
unfoldable pub dash_runs : Bool → String → String
unfolding is_slug
dash_runs replaced String.[] = String.[]
dash_runs replaced (String.◌∷◌ c s) = elim (is_slug (code c)) [
  | true ↦ String.◌∷◌ c (dash_runs false s)
  | false ↦ if replaced then dash_runs true s else String.◌∷◌ "-" (dash_runs true s)
]

-- the path separators and `..` that a node id may not hold
unfoldable pub is_path_like : String → Bool
is_path_like s = any_char (λ n. eqb n b'/') s || any_char (λ n. eqb n 92) s || has_pair b'.' s

abbrev is_dash : ℕ → Bool
is_dash n = eqb n b'-'

-- the normal form before its pattern is tested
unfoldable pub node_slug : String → String
unfolding dash_runs strip rstrip take lower is_space
node_slug s = rstrip is_dash (take 63 (strip is_dash (dash_runs false (lower (strip is_space s)))))

unfoldable pub normalize_node_id : String → Result FleetError String
normalize_node_id value = do
  raise_if (is_path_like value) invalid_node_id
  let normalized = node_slug value
  raise_if (not (is_node_id normalized)) invalid_node_id
  ok normalized

unfoldable pub dispatch_adapter : String → Result FleetError (Unit {0})
dispatch_adapter adapter =
    raise_if (not (member adapter dispatch_adapters)) unknown_dispatch_adapter
