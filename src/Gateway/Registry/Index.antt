-- ===== src/Gateway/Registry/Index.antt =====
-- The agent index of packages/gateway/src/registry/node-registry.ts points to nodes that serve.
use templar.Prelude.{
  ℕ, ◌≡◌, refl, Bool, true, false, Option, none, some, Option-cases, List, [], ◌∷◌, String, arith,
  inl, inr, if◌then◌else◌, eq_iff, eq_refl, ◌&&◌,
}
use templar.Prelude.Maps.{
  Map, lookup, has-lookup, insert, erase, lookup-insert, lookup-insert_self, lookup-erase,
}
use templar.Gateway.Registry.{
  NodeRegistry, RegisteredNode, NodeCapabilities, RegistryOp, do_register, do_deregister, pong,
  missed, do_clear, empty, agents_of, add_agents, register, owned, drop_agents, deregister, member,
  mark_alive, mark_dead, resolve_agent, after, step, run, new_node,
}

lookup-add_agents :
    (node_id agent : String) (agents : List String) (index : Map String)
    → lookup agent (add_agents node_id agents index)
      ≡ (if member agent agents then some node_id else lookup agent index)
unfolding add_agents
lookup-add_agents node_id agent [] index = refl
lookup-add_agents node_id agent (a ∷ agents) index = ground (
  arith,
  lookup-add_agents node_id agent agents (insert a node_id index),
  lookup-insert a agent node_id index,
)

lookup-drop_agents :
    (node_id agent : String) (before : Map String) (agents : List String) (index : Map String)
    → lookup agent (drop_agents node_id before agents index) ≡ (
        if member agent agents && owned node_id (lookup agent before)
        then none
        else lookup agent index)
unfolding drop_agents
lookup-drop_agents node_id agent before [] index = refl
lookup-drop_agents node_id agent before (a ∷ agents) index = ground (
  arith,
  eq_iff a agent,
  lookup-drop_agents node_id agent before agents
      (if owned node_id (lookup a before) then erase a index else index),
  lookup-erase a agent index,
)

abbrev pub lists_agent : String → Option RegisteredNode → Bool
lists_agent agent none = false
lists_agent agent (some node) = member agent (agents_of node.capabilities)

-- An agent that the index knows is listed by the registered node that the index names.
abbrev pub is_indexed : NodeRegistry → String → Bool
is_indexed r agent = elim (resolve_agent r agent) [
  | none ↦ true
  | some node_id ↦ lists_agent agent (lookup node_id r.nodes)
]

pub register-is_indexed :
    (r : NodeRegistry) (node_id : String) (capabilities : NodeCapabilities) (now : ℕ)
    (agent : String)
    → is_indexed r agent ≡ true
    → is_indexed (after r (register r node_id capabilities now)) agent ≡ true
unfolding register
register-is_indexed r node_id capabilities now agent v =
    elim (Option-cases (resolve_agent r agent)) [
      | inl unknown ↦ ground (
        arith,
        unknown,
        lookup-add_agents node_id agent (agents_of capabilities) r.agent_index,
        lookup-insert_self node_id (new_node node_id capabilities now) r.nodes,
      )
      | inr (owner, e) ↦ ground (
        arith,
        e,
        has-lookup node_id r.nodes,
        eq_iff node_id owner,
        lookup-add_agents node_id agent (agents_of capabilities) r.agent_index,
        lookup-insert_self node_id (new_node node_id capabilities now) r.nodes,
        lookup-insert node_id owner (new_node node_id capabilities now) r.nodes,
      )
    ]

pub deregister-is_indexed :
    (r : NodeRegistry) (node_id agent : String)
    → is_indexed r agent ≡ true
    → is_indexed (after r (deregister r node_id)) agent ≡ true
unfolding deregister
deregister-is_indexed r node_id agent v = elim (Option-cases (lookup node_id r.nodes)) [
  | inl unknown ↦ ground (arith, unknown)
  | inr (node, known) ↦ elim (Option-cases (resolve_agent r agent)) [
    | inl no_owner ↦ ground (
      arith,
      known,
      no_owner,
      lookup-drop_agents node_id agent r.agent_index (agents_of node.capabilities) r.agent_index,
    )
    | inr (owner, e) ↦ ground (
      arith,
      known,
      e,
      eq_iff owner node_id,
      eq_iff node_id owner,
      lookup-erase node_id owner r.nodes,
      lookup-drop_agents node_id agent r.agent_index (agents_of node.capabilities) r.agent_index,
    )
  ]
]

pub mark_alive-is_indexed :
    (r : NodeRegistry) (node_id : String) (now : ℕ) (agent : String)
    → is_indexed r agent ≡ true
    → is_indexed (mark_alive r node_id now) agent ≡ true
unfolding mark_alive
mark_alive-is_indexed r node_id now agent v = elim (Option-cases (lookup node_id r.nodes)) [
  | inl unknown ↦ ground (arith, unknown)
  | inr (node, known) ↦ elim (Option-cases (resolve_agent r agent)) [
    | inl no_owner ↦ ground (arith, known, no_owner)
    | inr (owner, e) ↦ ground (
      arith,
      known,
      e,
      eq_iff node_id owner,
      lookup-insert node_id owner (record node { is_alive = true; last_pong = now }) r.nodes,
    )
  ]
]

mark_dead-is_indexed :
    (r : NodeRegistry) (node_id agent : String)
    → is_indexed r agent ≡ true
    → is_indexed (mark_dead r node_id) agent ≡ true
unfolding mark_dead
mark_dead-is_indexed r node_id agent v = elim (Option-cases (lookup node_id r.nodes)) [
  | inl unknown ↦ ground (arith, unknown)
  | inr (node, known) ↦ elim (Option-cases (resolve_agent r agent)) [
    | inl no_owner ↦ ground (arith, known, no_owner)
    | inr (owner, e) ↦ ground (
      arith,
      known,
      e,
      eq_iff node_id owner,
      lookup-insert node_id owner (record node { is_alive = false }) r.nodes,
    )
  ]
]

step-is_indexed :
    (r : NodeRegistry) (op : RegistryOp) (agent : String)
    → is_indexed r agent ≡ true
    → is_indexed (step r op) agent ≡ true
unfolding step lookup
step-is_indexed r (do_register node_id capabilities now) agent v =
    register-is_indexed r node_id capabilities now agent v
step-is_indexed r (do_deregister node_id) agent v = deregister-is_indexed r node_id agent v
step-is_indexed r (pong node_id now) agent v = mark_alive-is_indexed r node_id now agent v
step-is_indexed r (missed node_id) agent v = mark_dead-is_indexed r node_id agent v
step-is_indexed r do_clear agent v = refl

run_lem :
    (r : NodeRegistry) (ops : List RegistryOp) (agent : String)
    → is_indexed r agent ≡ true
    → is_indexed (run r ops) agent ≡ true
unfolding run
run_lem r [] agent v = v
run_lem r (op ∷ ops) agent v = run_lem (step r op) ops agent (step-is_indexed r op agent v)

-- After any operations on an empty registry an agent resolves only to a node that is registered
-- and lists the agent.
pub registry_run-is_indexed :
    (ops : List RegistryOp) (agent : String) → is_indexed (run empty ops) agent ≡ true
unfolding lookup
registry_run-is_indexed ops agent = run_lem empty ops agent refl

-- When a node that is not registered registers with an agent and is deregistered again, the agent
-- resolves to no node, also if another node lists it and stays registered.
pub orphaned_agent :
    (r : NodeRegistry) (node_id other agent : String) (capabilities : NodeCapabilities) (now : ℕ)
    → lookup node_id r.nodes ≡ none
    → member agent (agents_of capabilities) ≡ true
    → lists_agent agent (lookup other r.nodes) ≡ true
    → let r' = step (step r (do_register node_id capabilities now)) (do_deregister node_id) in
      (resolve_agent r' agent ≡ none) × (lists_agent agent (lookup other r'.nodes) ≡ true)
unfolding step register deregister
orphaned_agent r node_id other agent capabilities now fresh own listed =
    let node = new_node node_id capabilities now in
    let index = add_agents node_id (agents_of capabilities) r.agent_index in
    ground (
      arith,
      fresh,
      own,
      listed,
      eq_refl node_id,
      eq_iff node_id other,
      has-lookup node_id r.nodes,
      lookup-insert_self node_id node r.nodes,
      lookup-insert node_id other node r.nodes,
      lookup-erase node_id other (insert node_id node r.nodes),
      lookup-add_agents node_id agent (agents_of capabilities) r.agent_index,
      lookup-drop_agents node_id agent index (agents_of capabilities) index,
    )
