-- ===== src/Gateway/Registry.antt =====
-- packages/gateway/src/registry/node-registry.ts, with the capabilities and requirements of
-- packages/gateway/src/protocol/types.ts. The clock is an argument.
pub mod Index
pub mod Domain
pub mod Synced
pub mod Health
mod Tests
use templar.Prelude.{
  ℕ, Bool, true, false, not, ◌&&◌, Option, none, some, List, [], ◌∷◌, String, if◌then◌else◌, str_eq,
  keep, all, any,
}
use templar.Prelude.Maps.{Map, lookup, has, insert, erase, values, size}
use templar.Prelude.Results.{ok, err}
use templar.Gateway.Errors.{Outcome, node_already_registered, node_not_found}

pub record NodeCapabilities : Type 0 where
  pub agent_types : List String
  pub agent_ids : Option (List String)
  pub tools : List String
  pub max_concurrency : ℕ
  pub channels : List String

pub record TaskRequirements : Type 0 where
  pub agent_type : String
  pub tools : Option (List String)
  pub channel : Option String

pub record RegisteredNode : Type 0 where
  pub node_id : String
  pub capabilities : NodeCapabilities
  pub registered_at : ℕ
  pub is_alive : Bool
  pub last_pong : ℕ

-- Sets, as lists.
pub record CapabilitySets : Type 0 where
  pub agent_types : List String
  pub tools : List String
  pub channels : List String

-- `agent_index` is the reverse index from an agent to the node that serves it.
pub record NodeRegistry : Type 0 where
  pub nodes : Map RegisteredNode
  pub cap_sets : Map CapabilitySets
  pub agent_index : Map String

abbrev pub empty : NodeRegistry
empty = record { nodes = []; cap_sets = []; agent_index = [] }

abbrev pub agents_of : NodeCapabilities → List String
agents_of c = elim c.agent_ids [ none ↦ [] | some l ↦ l ]

abbrev pub sets_of : NodeCapabilities → CapabilitySets
sets_of c = record { agent_types = c.agent_types; tools = c.tools; channels = c.channels }

-- The loop of `register` over the agents.
unfoldable pub add_agents : String → List String → Map String → Map String
add_agents node_id [] index = index
add_agents node_id (agent ∷ agents) index = add_agents node_id agents (insert agent node_id index)

abbrev pub new_node : String → NodeCapabilities → ℕ → RegisteredNode
new_node node_id capabilities now = record {
  node_id = node_id;
  capabilities = capabilities;
  registered_at = now;
  is_alive = true;
  last_pong = now;
}

unfoldable pub register : NodeRegistry → String → NodeCapabilities → ℕ → Outcome NodeRegistry
unfolding add_agents
register r node_id capabilities now =
    if has node_id r.nodes
    then err (node_already_registered node_id)
    else ok (record {
      nodes = insert node_id (new_node node_id capabilities now) r.nodes;
      cap_sets = insert node_id (sets_of capabilities) r.cap_sets;
      agent_index = add_agents node_id (agents_of capabilities) r.agent_index;
    })

-- Whether an agent's entry in the index is this node.
abbrev pub owned : String → Option String → Bool
owned node_id none = false
owned node_id (some owner) = str_eq owner node_id

-- The loop of `deregister`: the test reads the index as it was before the loop.
pub drop_agents : String → Map String → List String → Map String → Map String
drop_agents node_id before [] index = index
drop_agents node_id before (agent ∷ agents) index =
    let kept = if owned node_id (lookup agent before) then erase agent index else index in
    drop_agents node_id before agents kept

abbrev pub remove_node : NodeRegistry → String → RegisteredNode → NodeRegistry
remove_node r node_id node = record {
  nodes = erase node_id r.nodes;
  cap_sets = erase node_id r.cap_sets;
  agent_index = drop_agents node_id r.agent_index (agents_of node.capabilities) r.agent_index;
}

pub deregister : NodeRegistry → String → Outcome NodeRegistry
unfolding drop_agents
deregister r node_id = elim (lookup node_id r.nodes) [
  | none ↦ err (node_not_found node_id)
  | some node ↦ ok (remove_node r node_id node)
]

abbrev pub member : String → List String → Bool
member x = any (λ y. str_eq y x)

-- An empty channel counts as none.
abbrev pub channel_ok : Option String → List String → Bool
channel_ok none channels = true
channel_ok (some c) channels = if str_eq c "" then true else member c channels

abbrev pub tools_ok : Option (List String) → List String → Bool
tools_ok none tools = true
tools_ok (some l) tools = all (λ t. member t tools) l

pub meets : TaskRequirements → Option CapabilitySets → Bool
meets q none = false
meets q (some s) =
    member q.agent_type s.agent_types
    && (tools_ok q.tools s.tools && channel_ok q.channel s.channels)

pub find_by_requirements : NodeRegistry → TaskRequirements → List RegisteredNode
unfolding meets
find_by_requirements r q =
    keep (λ node. node.is_alive && meets q (lookup node.node_id r.cap_sets)) (values r.nodes)

pub mark_alive : NodeRegistry → String → ℕ → NodeRegistry
mark_alive r node_id now = elim (lookup node_id r.nodes) [
  | none ↦ r
  | some node ↦ record r {
    nodes = insert node_id (record node { is_alive = true; last_pong = now }) r.nodes;
  }
]

pub mark_dead : NodeRegistry → String → NodeRegistry
mark_dead r node_id = elim (lookup node_id r.nodes) [
  | none ↦ r
  | some node ↦ record r { nodes = insert node_id (record node { is_alive = false }) r.nodes }
]

abbrev pub resolve_agent : NodeRegistry → String → Option String
resolve_agent r agent = lookup agent r.agent_index

pub get_alive_nodes : NodeRegistry → List RegisteredNode
get_alive_nodes r = keep (λ n. n.is_alive) (values r.nodes)

abbrev pub clear : NodeRegistry → NodeRegistry
clear r = empty

pub data RegistryOp : Type 0 where
  do_register : String → NodeCapabilities → ℕ → RegistryOp
  do_deregister : String → RegistryOp
  pong : String → ℕ → RegistryOp
  missed : String → RegistryOp
  do_clear : RegistryOp

-- A call that throws leaves the registry as it was.
abbrev pub after : NodeRegistry → Outcome NodeRegistry → NodeRegistry
after r (ok r') = r'
after r (err e) = r

pub step : NodeRegistry → RegistryOp → NodeRegistry
unfolding register deregister mark_alive mark_dead
step r (do_register node_id capabilities now) = after r (register r node_id capabilities now)
step r (do_deregister node_id) = after r (deregister r node_id)
step r (pong node_id now) = mark_alive r node_id now
step r (missed node_id) = mark_dead r node_id
step r do_clear = clear r

pub run : NodeRegistry → List RegistryOp → NodeRegistry
unfolding step
run r [] = r
run r (op ∷ ops) = run (step r op) ops
