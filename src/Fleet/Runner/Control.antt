-- ===== src/Fleet/Runner/Control.antt =====
-- The calls of a runner's control commands and of GitHub's runner inventory: what is run, and how
-- the answer is read. A process answers with its return code, and with its output read as JSON.
use opl_flow.Base.{
  ℕ, String, Bool, true, false, not, ◌&&◌, ◌||◌, ◌==◌, Option, none, some, List, [], ◌∷◌, ◌++◌,
  member, leb, ltb, eqb, if◌then◌else◌, ok, err, raise_if, ◌>>=◌, ◌>>◌,
}
use opl_flow.Base.Results.{Result}
use opl_flow.Base.Int.{ℤ, pos, negsuc}
use opl_flow.Base.Text.{chars, any_char, all_chars, is_lower, is_upper, is_digit}
use opl_flow.Json.{Value, num, flag, has_exactly, get}
use opl_flow.Fleet.Common.{
  FleetError, control_route_invalid, control_command_invalid, control_route_unavailable,
  control_action_invalid, control_failed, status_not_json, no_transport, alias_invalid,
  status_invalid, runner_inventory_unavailable, runner_inventory_not_json, runner_name_not_unique,
}

-- The object `runner_control` of a route.
pub record RunnerControl : Type 0 where
  pub shell : String
  pub start : String
  pub stop : String
  pub status : String

unfoldable pub is_bad_command : String → Bool
is_bad_command s =
    not (leb 1 (chars s) && leb (chars s) 4000) || any_char (λ n. eqb n 0 || eqb n 13 || eqb n 10) s

unfoldable pub validate_runner_control : RunnerControl → Result FleetError RunnerControl
validate_runner_control c = do
  raise_if (not (member c.shell ("posix" ∷ "powershell" ∷ []))) control_route_invalid
  raise_if (is_bad_command c.start) control_command_invalid
  raise_if (is_bad_command c.stop) control_command_invalid
  raise_if (is_bad_command c.status) control_command_invalid
  ok c

-- The route of a node: on the controller itself, or by an SSH alias.
pub record RunnerRoute : Type 0 where
  pub local : Bool
  pub ssh : Option String
  pub control : Option RunnerControl

unfoldable pub runner_control_route : RunnerRoute → Result FleetError RunnerControl
runner_control_route route = elim route.control [
  | none ↦ err control_route_unavailable
  | some c ↦ validate_runner_control c
]

-- a process that is run: its arguments, and the text on its standard input
pub record Invocation : Type 0 where
  pub argv : List String
  pub input_text : Option String

-- `[A-Za-z0-9._-]{1,120}`
abbrev is_alias_char : ℕ → Bool
is_alias_char n = is_lower n || is_upper n || is_digit n || eqb n b'.' || eqb n b'_' || eqb n b'-'

unfoldable pub is_ssh_alias : String → Bool
is_ssh_alias s = all_chars is_alias_char s && leb 1 (chars s) && leb (chars s) 120

abbrev pub ssh_options : List String
ssh_options = "ssh" ∷ "-o" ∷ "BatchMode=yes" ∷ "-o" ∷ "ConnectTimeout=8" ∷ []

-- `control[action]`
abbrev pub command_of : RunnerControl → String → String
command_of c action =
    if action == "start" then c.start else if action == "stop" then c.stop else c.status

abbrev pub local_invocation : String → String → Invocation
local_invocation shell command =
    if shell == "posix"
    then record { argv = "bash" ∷ "-lc" ∷ command ∷ []; input_text = none }
    else record {
      argv = "powershell" ∷ "-NoProfile" ∷ "-NonInteractive" ∷ "-Command" ∷ command ∷ [];
      input_text = none;
    }

abbrev pub remote_invocation : String → String → String → Invocation
remote_invocation shell ssh_alias command =
    if shell == "powershell"
    then record {
      argv =
          ssh_options
          ++ (ssh_alias ∷ "powershell.exe" ∷ "-NoProfile" ∷ "-NonInteractive" ∷ "-Command" ∷ command
              ∷ []);
      input_text = none;
    }
    else record {
      argv = ssh_options ++ (ssh_alias ∷ "bash" ∷ "-s" ∷ []);
      input_text = some command;
    }

-- `not ssh_alias`
abbrev pub lacks_alias : Option String → Bool
lacks_alias none = true
lacks_alias (some s) = s == ""

abbrev pub alias_or : Option String → String
alias_or none = ""
alias_or (some s) = s

-- the part of `runner_control_call` before the process is run
unfoldable pub runner_invocation : RunnerRoute → String → Result FleetError Invocation
runner_invocation route action = do
  raise_if (not (member action ("start" ∷ "stop" ∷ "status" ∷ []))) control_action_invalid
  control ← runner_control_route route
  raise_if (not route.local && lacks_alias route.ssh) no_transport
  raise_if (not route.local && not (is_ssh_alias (alias_or route.ssh))) alias_invalid
  ok (
      if route.local
      then local_invocation control.shell (command_of control action)
      else remote_invocation control.shell (alias_or route.ssh) (command_of control action))

pub record ControlStatus : Type 0 where
  pub enabled : Bool
  pub online : Bool
  pub processes : ℕ

-- the payload of a status; a flag is a number too for `isinstance(value, int)`
abbrev pub status_fields :
    Option Value → Option Value → Option Value → Result FleetError ControlStatus
status_fields (some (flag enabled)) (some (flag online)) (some (num (pos processes))) =
    ok (record { enabled = enabled; online = online; processes = processes })
status_fields (some (flag enabled)) (some (flag online)) (some (flag processes)) =
    ok (record { enabled = enabled; online = online; processes = if processes then 1 else 0 })
status_fields _ _ _ = err status_invalid

unfoldable pub read_status : Option Value → Result FleetError ControlStatus
read_status none = err status_not_json
read_status (some v) =
    if has_exactly ("enabled" ∷ "online" ∷ "processes" ∷ []) v
    then status_fields (get "enabled" v) (get "online" v) (get "processes" v)
    else err status_invalid

-- What a process has answered: its return code, and its output if that is JSON.
pub record Answer : Type 0 where
  pub returncode : ℤ
  pub output : Option Value

abbrev pub failed : ℤ → Bool
failed (pos n) = ltb 0 n
failed (negsuc n) = true

-- `runner_control_call(node_id, "status")`
unfoldable pub status_call : RunnerRoute → Answer → Result FleetError ControlStatus
status_call route answer = do
  runner_invocation route "status"
  raise_if (failed answer.returncode) control_failed
  read_status answer.output

-- `runner_control_call(node_id, action, check=…)` of a start or a stop: whether the process succeeded
unfoldable pub action_call : RunnerRoute → String → Bool → Answer → Result FleetError Bool
action_call route action check answer = do
  runner_invocation route action
  raise_if (failed answer.returncode && check) control_failed
  ok (not (failed answer.returncode))

pub record GithubRunner : Type 0 where
  pub name : Option String
  pub status : Option String
  pub busy : Option Bool

pub record GithubState : Type 0 where
  pub registered : Bool
  pub online : Bool
  pub busy : Bool

abbrev pub is_named : String → Option String → Bool
is_named runner_name none = false
is_named runner_name (some s) = s == runner_name

-- the runners of that name on a page
unfoldable pub named_on : String → List GithubRunner → List GithubRunner
named_on runner_name [] = []
named_on runner_name (r ∷ rs) =
    let rest = named_on runner_name rs in if is_named runner_name r.name then r ∷ rest else rest

-- the runners of that name on all pages
unfoldable pub named_runners : String → List (List GithubRunner) → List GithubRunner
named_runners runner_name [] = []
named_runners runner_name (page ∷ pages) =
    named_on runner_name page ++ named_runners runner_name pages

abbrev pub is_online : Option String → Bool
is_online none = false
is_online (some s) = s == "online"

abbrev pub is_busy : Option Bool → Bool
is_busy none = false
is_busy (some b) = b

unfoldable pub only_runner : List GithubRunner → Result FleetError GithubState
only_runner [] = ok (record { registered = false; online = false; busy = false })
only_runner (r ∷ []) =
    ok (record { registered = true; online = is_online r.status; busy = is_busy r.busy })
only_runner (r ∷ s ∷ rs) = err runner_name_not_unique

-- `github_runner_state`, on the return code of `gh` and the pages that it prints
unfoldable pub github_runner_state :
    String → ℤ → Option (List (List GithubRunner)) → Result FleetError GithubState
github_runner_state runner_name returncode pages = do
  raise_if (failed returncode) runner_inventory_unavailable
  elim pages [
    | none ↦ err runner_inventory_not_json
    | some ps ↦ only_runner (named_runners runner_name ps)
  ]
