-- ===== src/Fleet/Admission/Roles.antt =====
-- The runner roles of fleet_runner.py. `node_registry()` is an argument.
use opl_flow.Base.{
  String, Bool, true, false, not, Option, none, some, List, member, is_empty, if◌then◌else◌, ok,
  err, raise_if, ◌>>=◌, ◌>>◌,
}
use opl_flow.Base.Results.{Result}
use opl_flow.Base.Dict.{Dict, lookup}
use opl_flow.Fleet.Common.{
  FleetError, unknown_runner_role, role_bars_node, role_bars_workload, normalize_node_id,
}
use opl_flow.Fleet.Lease.Validate.{validate_role}
use opl_flow.Fleet.Lease.Requests.{text_or}

-- The two tables of the node registry that the roles need.
pub record NodeRegistry : Type 0 where
  pub runner_roles : Dict (List String)
  pub runner_role_workloads : Dict (List String)

-- the nodes of a role; a role without nodes is as unknown as one that is not listed
abbrev pub some_nodes : Option (List String) → Result FleetError (List String)
some_nodes none = err unknown_runner_role
some_nodes (some nodes) = if is_empty nodes then err unknown_runner_role else ok nodes

unfoldable pub runner_role_nodes : String → NodeRegistry → Result FleetError (List String)
runner_role_nodes role registry = do
  normalized ← validate_role (some role) true
  some_nodes (lookup (text_or normalized) registry.runner_roles)

unfoldable pub assert_runner_role_node : String → String → NodeRegistry → Result FleetError String
assert_runner_role_node role node_id registry = do
  normalized_node ← normalize_node_id node_id
  normalized_role ← validate_role (some role) true
  nodes ← runner_role_nodes (text_or normalized_role) registry
  raise_if (not (member normalized_node nodes)) role_bars_node
  ok (text_or normalized_role)

abbrev pub bars : Option (List String) → String → Bool
bars none workload_class = false
bars (some allowed) workload_class = not (member workload_class allowed)

unfoldable pub assert_runner_role_workload :
    String → String → NodeRegistry → Result FleetError (Unit {0})
assert_runner_role_workload role workload_class registry = do
  normalized_role ← validate_role (some role) true
  raise_if (bars (lookup (text_or normalized_role) registry.runner_role_workloads) workload_class)
      role_bars_workload
