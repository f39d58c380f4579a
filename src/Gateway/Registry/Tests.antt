-- ===== src/Gateway/Registry/Tests.antt =====
-- Runs of packages/gateway/src/registry/node-registry.ts and of the sweeps over it.
use templar.Prelude.{◌≡◌, refl, true, none, some, List, [], ◌∷◌, keep, map}
use templar.Prelude.Maps.{lookup, values}
use templar.Gateway.Registry.{
  NodeRegistry, NodeCapabilities, TaskRequirements, RegistryOp, do_register, do_deregister, missed,
  empty, new_node, sets_of, find_by_requirements, resolve_agent, step, run,
}
use templar.Gateway.Registry.Index.{
  is_indexed, lists_agent, registry_run-is_indexed, orphaned_agent,
}
use templar.Gateway.Registry.Synced.{satisfies, find_by_requirements_lem}
use templar.Gateway.Registry.Health.{sweep, node_dead, deregistering}
use templar.Gateway.Registry.Health.Sweep.{silent_nodes_die, deregistering-AreQuiet}

abbrev coder : NodeCapabilities
coder = record {
  agent_types = "code" ∷ [];
  agent_ids = some ("ada" ∷ []);
  tools = "shell" ∷ [];
  max_concurrency = 1;
  channels = "slack" ∷ [];
}

abbrev ops : List RegistryOp
ops = do_register "n" coder 1 ∷ do_register "m" coder 2 ∷ missed "n" ∷ do_deregister "m" ∷ []

registry_run-is_indexed_example : is_indexed (run empty ops) "ada" ≡ true
registry_run-is_indexed_example = registry_run-is_indexed ops "ada"

abbrev one_node : NodeRegistry
one_node = record {
  nodes = ("n", new_node "n" coder 1) ∷ [];
  cap_sets = ("n", sets_of coder) ∷ [];
  agent_index = ("ada", "n") ∷ [];
}

orphaned_agent_example :
    let r' = step (step one_node (do_register "m" coder 2)) (do_deregister "m") in
    (resolve_agent r' "ada" ≡ none) × (lists_agent "ada" (lookup "n" r'.nodes) ≡ true)
unfolding lookup
orphaned_agent_example = orphaned_agent one_node "m" "n" "ada" coder 2 refl refl refl

abbrev wants_shell : TaskRequirements
wants_shell = record { agent_type = "code"; tools = some ("shell" ∷ []); channel = none }

find_by_requirements_lem_example :
    find_by_requirements (run empty ops) wants_shell
    ≡ keep (satisfies wants_shell) (values (run empty ops).nodes)
find_by_requirements_lem_example = find_by_requirements_lem ops wants_shell

silent_nodes_die_example :
    (sweep deregistering (sweep deregistering (run empty ops)).0).1
    ≡ map node_dead (values (sweep deregistering (run empty ops)).0.nodes)
silent_nodes_die_example = silent_nodes_die deregistering ops deregistering-AreQuiet
