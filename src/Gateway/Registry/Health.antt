-- ===== src/Gateway/Registry/Health.antt =====
-- The sweep of packages/gateway/src/registry/health-monitor.ts: one pass that reports the nodes that
-- have not answered the last ping, and marks and pings the others.
pub mod Sweep
pub mod Answering
use templar.Prelude.{
  Bool, true, false, some, ◌≡◌, List, [], ◌∷◌, map, String, if◌then◌else◌, str_eq,
}
use templar.Prelude.Maps.{values, lookup}
use templar.Gateway.Registry.Synced.{IsSynced}
use templar.Gateway.Registry.{NodeRegistry, RegisteredNode, mark_dead, deregister, after}

-- What a sweep sends: the death of a node to the handlers, a ping to a node.
pub data HealthEvent : Type 0 where
  node_dead : RegisteredNode → HealthEvent
  ping : String → HealthEvent

-- The handlers that clients have registered may change the registry.
pub record Handlers : Type 0 where
  pub on_sweep : NodeRegistry → NodeRegistry
  pub on_node_dead : RegisteredNode → NodeRegistry → NodeRegistry

-- One node of the loop: a live node is marked and gets a ping, another is reported.
pub visit : Handlers → RegisteredNode → NodeRegistry → NodeRegistry
visit h node r = if node.is_alive then mark_dead r node.node_id else h.on_node_dead node r

abbrev pub event_of : RegisteredNode → HealthEvent
event_of node = if node.is_alive then ping node.node_id else node_dead node

-- The loop over the nodes that the sweep has listed at its start.
pub sweep_nodes : Handlers → List RegisteredNode → NodeRegistry → NodeRegistry × List HealthEvent
unfolding visit
sweep_nodes h [] r = (r, [])
sweep_nodes h (node ∷ nodes) r =
    let (r', events) = sweep_nodes h nodes (visit h node r) in (r', event_of node ∷ events)

pub sweep : Handlers → NodeRegistry → NodeRegistry × List HealthEvent
unfolding sweep_nodes
sweep h r = let r' = h.on_sweep r in sweep_nodes h (values r'.nodes) r'

abbrev pub is_death_of : String → HealthEvent → Bool
is_death_of k (node_dead node) = str_eq node.node_id k
is_death_of k (ping id) = false

-- Handlers that at most remove nodes from the registry when a node is dead.
pub record AreQuiet (h : Handlers) : Type 0 where
  pub sweep_keeps : (r : NodeRegistry) → h.on_sweep r ≡ r
  pub dead_synced :
      (node : RegisteredNode) (r : NodeRegistry) → IsSynced r → IsSynced (h.on_node_dead node r)
  pub dead_drops :
      (node : RegisteredNode) (r : NodeRegistry) (k : String) (n : RegisteredNode)
      → lookup k (h.on_node_dead node r).nodes ≡ some n
      → lookup k r.nodes ≡ some n

-- What packages/gateway/src/gateway.ts registers: a dead node is deregistered, and the handler of a sweep
-- does not touch the registry.
abbrev pub deregistering : Handlers
deregistering = record {
  on_sweep = λ r. r;
  on_node_dead = λ node r. after r (deregister r node.node_id);
}
