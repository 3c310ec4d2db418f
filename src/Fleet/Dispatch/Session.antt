-- ===== src/Fleet/Dispatch/Session.antt =====
-- `validate_execution_argv`, `validate_execution_result` and `execute_ssh_session` of
-- fleet_dispatch.py. `bytes` is the length of a text in UTF-8, `size` that of a value's JSON text,
-- and `read_time` what `parse_utc` makes of a value.
use opl_flow.Base.{
  ℕ, String, Bool, true, false, not, ◌&&◌, ◌||◌, ◌==◌, ◌*◌, Option, none, some, List, [], ◌∷◌, eqb,
  ltb, leb, length, if◌then◌else◌, ok, err, raise_if, ◌>>=◌, ◌>>◌,
}
use opl_flow.Base.Results.{Result}
use opl_flow.Base.Int.{ℤ, pos, leb_ℤ}
use opl_flow.Base.Text.{any_char}
use opl_flow.Json.{
  Value, Elements, no_element, element, null, text, num, flag, arr, get, has_exactly, is_text_at,
  as_text,
}
use opl_flow.Fleet.Common.{
  FleetError, argv_not_json, argv_invalid, execution_timeout_invalid, execution_cwd_invalid,
  ssh_route_unavailable, execution_result_invalid, not_a_time, normalize_node_id,
}
use opl_flow.Fleet.Runner.Control.{RunnerRoute, failed, is_ssh_alias, alias_or}

-- `parse_utc` returns, or refuses a time without a zone, or fails on what is no time.
pub data TimeReading : Type 0 where
  instant : TimeReading
  without_zone : TimeReading
  no_time : TimeReading

abbrev pub has_nul : String → Bool
has_nul s = any_char (λ n. eqb n 0) s

abbrev pub max_execution_output_bytes : ℕ
max_execution_output_bytes = 65536

abbrev pub remote_execution_timeout_seconds : ℤ
remote_execution_timeout_seconds = pos 3600

-- A result that is accepted: the fields that are used, and the whole.
pub record ExecutionResult : Type 0 where
  pub timed_out : Bool
  pub exit_code : Option ℤ
  pub payload : Value

-- What is known of a session at its end.
pub data Execution : Type 0 where
  known : ExecutionResult → Execution
  unknown : String → Option ℤ → Execution

-- What the process of the transport answers: nothing in time, or its return code and its output,
-- if that is JSON.
pub data Transport : Type 0 where
  timeout_expired : Transport
  completed : ℤ → Option Value → Transport

-- What is run: the alias of the host, or none for the controller itself, and the payload that is sent.
pub record Invocation : Type 0 where
  pub host : Option String
  pub argv : List String
  pub cwd : Option String
  pub timeout_seconds : ℤ

-- `value.get("exit_code") is None or isinstance(value["exit_code"], int)`; a flag is a number too
abbrev pub exit_code_of : Option Value → Option (Option ℤ)
exit_code_of none = some none
exit_code_of (some null) = some none
exit_code_of (some (num z)) = some (some z)
exit_code_of (some (flag b)) = some (some (if b then pos 1 else pos 0))
exit_code_of _ = none

abbrev pub as_flag : Option Value → Option Bool
as_flag (some (flag b)) = some b
as_flag _ = none

abbrev pub result_fields : List String
result_fields =
    "schema" ∷ "started_at" ∷ "finished_at" ∷ "exit_code" ∷ "timed_out" ∷ "stdout" ∷ "stderr"
    ∷ "stdout_truncated" ∷ "stderr_truncated" ∷ []

module _ (bytes : String → ℕ) (size : Value → ℕ) (read_time : Option Value → TimeReading) where
  unfoldable pub argv_items : Elements → Result FleetError (List String)
  argv_items no_element = ok []
  argv_items (element (text s) vs) = do
    raise_if (s == "" || ltb 4096 (bytes s) || has_nul s) argv_invalid
    rest ← argv_items vs
    ok (s ∷ rest)
  argv_items (element _ vs) = err argv_invalid

  unfoldable pub validate_execution_argv : Option Value → Result FleetError (List String)
  validate_execution_argv none = err argv_not_json
  validate_execution_argv (some (arr vs)) = do
    argv ← argv_items vs
    raise_if (not (leb 1 (length argv) && leb (length argv) 128) || ltb 32768 (size (arr vs)))
        argv_invalid
    ok argv
  validate_execution_argv (some _) = err argv_invalid

  abbrev pub is_output : Option String → Bool
  is_output none = false
  is_output (some s) = leb (bytes s) (max_execution_output_bytes * 4)

  abbrev pub check_time : Option Value → Result FleetError (Unit {0})
  check_time v = elim (read_time v) [
    | instant ↦ ok tt
    | without_zone ↦ err execution_result_invalid
    | no_time ↦ err not_a_time
  ]

  -- the fields of a result, but for the two times
  abbrev pub result_parts : Value → Option ExecutionResult
  result_parts v = elim (as_flag (get "timed_out" v)) [
    | none ↦ none
    | some timed_out ↦ elim (exit_code_of (get "exit_code" v)) [
      | none ↦ none
      | some exit_code ↦
          if has_exactly result_fields v
            && is_text_at "schema" "codex_fleet_ssh_execution_result.v1" v
            && is_output (as_text (get "stdout" v))
            && is_output (as_text (get "stderr" v))
            && is_flag (get "stdout_truncated" v)
            && is_flag (get "stderr_truncated" v)
          then some (record { timed_out = timed_out; exit_code = exit_code; payload = v })
          else none
    ]
  ]
    where
      is_flag : Option Value → Bool
      is_flag (some (flag b)) = true
      is_flag _ = false

  unfoldable pub validate_execution_result : Value → Result FleetError ExecutionResult
  validate_execution_result v = elim (result_parts v) [
    | none ↦ err execution_result_invalid
    | some result ↦ (do
      check_time (get "started_at" v)
      check_time (get "finished_at" v)
      ok result)
  ]

  abbrev pub is_bad_cwd : Option String → Bool
  is_bad_cwd none = false
  is_bad_cwd (some s) =
      s == "" || ltb 1024 (bytes s) || any_char (λ n. eqb n 0 || eqb n 13 || eqb n 10) s

  -- `except (json.JSONDecodeError, FleetError)`
  abbrev pub result_or_unknown : ℤ → Result FleetError ExecutionResult → Result FleetError Execution
  result_or_unknown returncode (ok result) = ok (known result)
  result_or_unknown returncode (err not_a_time) = err not_a_time
  result_or_unknown returncode (err _) = ok (unknown "ssh-result-invalid" (some returncode))

  unfoldable pub read_transport : Transport → Result FleetError Execution
  read_transport timeout_expired = ok (unknown "ssh-controller-timeout" none)
  read_transport (completed returncode output) =
      if failed returncode
      then ok (unknown "ssh-transport-failed" (some returncode))
      else elim output [
        | none ↦ ok (unknown "ssh-result-invalid" (some returncode))
        | some v ↦ result_or_unknown returncode (validate_execution_result v)
      ]

  -- `routes` gives the route of a node; what is run for a session there, if it may be run
  unfoldable pub session_invocation :
      (String → RunnerRoute)
      → String
      → List String
      → Option String
      → ℤ
      → Bool
      → Result FleetError Invocation
  session_invocation routes node_id argv cwd timeout_seconds allow_local = do
    raise_if
        (not
          (leb_ℤ (pos 1) timeout_seconds && leb_ℤ timeout_seconds remote_execution_timeout_seconds))
        execution_timeout_invalid
    raise_if (is_bad_cwd cwd) execution_cwd_invalid
    normalized ← normalize_node_id node_id
    let route = routes normalized
    raise_if (route.local && not allow_local) ssh_route_unavailable
    raise_if (not route.local && not (is_ssh_alias (alias_or route.ssh))) ssh_route_unavailable
    ok (record {
      host = if route.local then none else some (alias_or route.ssh);
      argv = argv;
      cwd = cwd;
      timeout_seconds = timeout_seconds;
    })

  -- `transport` is what a process that is run answers; the invocation that is run, if one is, and what
  -- is known of it
  unfoldable pub execute_ssh_session :
      (String → RunnerRoute)
      → String
      → List String
      → Option String
      → ℤ
      → Bool
      → (Invocation → Transport)
      → Option Invocation × Result FleetError Execution
  execute_ssh_session routes node_id argv cwd timeout_seconds allow_local transport =
      elim (session_invocation routes node_id argv cwd timeout_seconds allow_local) [
        | err e ↦ (none, err e)
        | ok i ↦ (some i, read_transport (transport i))
      ]
