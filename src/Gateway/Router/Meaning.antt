-- ===== src/Gateway/Router/Meaning.antt =====
-- packages/gateway/src/router.ts: which node a message is meant for, and what routing it does.
use templar.Prelude.{
  Option, none, some, Option-cases, String, eq_iff, ◌≡◌, ◌≢◌, refl, sym, ap, ◌∙◌, arith, inl, inr,
}
use templar.Prelude.Maps.{lookup, lookup-insert_self, lookup-insert_ne}
use templar.Prelude.Results.{ok}
use templar.Gateway.Lanes.{LaneMessage}
use templar.Gateway.Registry.{NodeRegistry}
use templar.Gateway.Buffer.{MessageBuffer, dispatch}
use templar.Gateway.Bindings.{BindingResolver, resolve}
use templar.Gateway.Keys.{present}
use templar.Gateway.Router.{AgentRouter, Routed, route, agent_of, node_of_agent, node_of_channel}
use templar.Gateway.Router.Dispatch.{target, target_by, Moves, route-Moves}

-- The bindings name an agent for a message, by a name that is not empty.
pub record Names (o : Option BindingResolver) (message : LaneMessage) (agent_id : String)
    : Type 0 where
  pub resolver : BindingResolver
  pub installed : o ≡ some resolver
  pub resolved : resolve resolver message ≡ some agent_id
  pub named : agent_id ≢ ""

-- The node that serves an agent, or to whose channel a message goes whose bindings name no agent.
pub data IsMeantFor (registry : NodeRegistry) (r : AgentRouter) (message : LaneMessage)
    (node_id : String) : Type 0 where
  by_agent :
      (agent_id : String) (find : NodeRegistry → String → Option String)
      → Names r.binding_resolver message agent_id
      → r.agent_node_resolver ≡ some find
      → find registry agent_id ≡ some node_id
      → node_id ≢ ""
      → IsMeantFor registry r message node_id
  by_channel :
      ((agent_id : String) → ¬ (Names r.binding_resolver message agent_id))
      → lookup message.channel_id r.channel_bindings ≡ some node_id
      → node_id ≢ ""
      → IsMeantFor registry r message node_id

present_iff : (o : Option String) (v : String) → present o ≡ some v → (o ≡ some v) × (v ≢ "")
present_iff none v h = cc
present_iff (some w) v h = (ground (arith, h), λ e. ground (arith, h, e, eq_iff w ""))

some-present : (o : Option String) (v : String) → o ≡ some v → v ≢ "" → present o ≡ some v
some-present o v h named = ap present h ∙ ground (arith, named, eq_iff v "")

agent_of-Names :
    (o : Option BindingResolver) (message : LaneMessage) (agent_id : String)
    → agent_of o message ≡ some agent_id
    → Names o message agent_id
unfolding agent_of
agent_of-Names none message agent_id h = cc
agent_of-Names (some resolver) message agent_id h =
    let (resolved, named) = present_iff (resolve resolver message) agent_id h in
    record { resolver = resolver; installed = refl; resolved = resolved; named = named }

Names-agent_of :
    (o : Option BindingResolver) (message : LaneMessage) (agent_id : String)
    → Names o message agent_id
    → agent_of o message ≡ some agent_id
unfolding agent_of
Names-agent_of o message agent_id n =
    ap (λ (x : Option BindingResolver). agent_of x message) n.installed
    ∙ some-present (resolve n.resolver message) agent_id n.resolved n.named

find-node :
    (registry : NodeRegistry) (o : Option (NodeRegistry → String → Option String))
    (agent_id node_id : String)
    → node_of_agent registry o agent_id ≡ ok node_id
    → (find : NodeRegistry → String → Option String) × (o ≡ some find)
      × (find registry agent_id ≡ some node_id)
      × (node_id ≢ "")
unfolding node_of_agent
find-node registry none agent_id node_id h = cc
find-node registry (some find) agent_id node_id h =
    elim (Option-cases (present (find registry agent_id))) [
      | inl e ↦ ground (arith, h, e)
      | inr (n, e) ↦
          let same : n ≡ node_id = ground (arith, h, e) in
          let (found, named) = present_iff (find registry agent_id) node_id (e ∙ ap some same) in
          (find, refl, found, named)
    ]

channel-node :
    (r : AgentRouter) (channel_id node_id : String)
    → node_of_channel r channel_id ≡ ok node_id
    → (lookup channel_id r.channel_bindings ≡ some node_id) × (node_id ≢ "")
unfolding node_of_channel
channel-node r channel_id node_id h =
    elim (Option-cases (present (lookup channel_id r.channel_bindings))) [
      | inl e ↦ ground (arith, h, e)
      | inr (n, e) ↦
          let same : n ≡ node_id = ground (arith, h, e) in
          present_iff (lookup channel_id r.channel_bindings) node_id (e ∙ ap some same)
    ]

target_by-IsMeantFor :
    (registry : NodeRegistry) (r : AgentRouter) (message : LaneMessage) (node_id : String)
    (o : Option String)
    → agent_of r.binding_resolver message ≡ o
    → target_by registry r message o ≡ ok node_id
    → IsMeantFor registry r message node_id
unfolding target_by
target_by-IsMeantFor registry r message node_id none e h =
    let (bound, named) = channel-node r message.channel_id node_id h in
    by_channel
      (λ agent_id n. let clash = sym e ∙ Names-agent_of r.binding_resolver message agent_id n in cc)
      bound named
target_by-IsMeantFor registry r message node_id (some agent_id) e h =
    let (find, installed, found, named) =
      find-node registry r.agent_node_resolver agent_id node_id h in
    by_agent agent_id find (agent_of-Names r.binding_resolver message agent_id e) installed found
      named

pub target-IsMeantFor :
    (registry : NodeRegistry) (r : AgentRouter) (message : LaneMessage) (node_id : String)
    → target registry r message ≡ ok node_id
    → IsMeantFor registry r message node_id
unfolding target
target-IsMeantFor registry r message node_id h =
    target_by-IsMeantFor registry r message node_id (agent_of r.binding_resolver message) refl h

pub IsMeantFor-target :
    (registry : NodeRegistry) (r : AgentRouter) (message : LaneMessage) (node_id : String)
    → IsMeantFor registry r message node_id
    → target registry r message ≡ ok node_id
unfolding target target_by node_of_agent node_of_channel
IsMeantFor-target registry r message node_id (by_agent agent_id find n installed found named) =
    ap (target_by registry r message) (Names-agent_of r.binding_resolver message agent_id n)
    ∙ ap (λ (o : Option (NodeRegistry → String → Option String)). node_of_agent registry o agent_id)
        installed
    ∙ ground (arith, some-present (find registry agent_id) node_id found named)
IsMeantFor-target registry r message node_id (by_channel unnamed bound named) =
    elim (Option-cases (agent_of r.binding_resolver message)) [
      | inl e ↦
          ap (target_by registry r message) e
          ∙ ground (
            arith,
            some-present (lookup message.channel_id r.channel_bindings) node_id bound named,
          )
      | inr (agent_id, e) ↦
          absurd (unnamed agent_id (agent_of-Names r.binding_resolver message agent_id e))
    ]

-- A buffer of the router has taken a message, and nothing else has changed.
pub record Delivers (r : AgentRouter) (message : LaneMessage) (q : Routed) : Type 0 where
  pub buffer : MessageBuffer
  pub had : lookup q.node_id r.dispatchers ≡ some buffer
  pub took : lookup q.node_id q.router.dispatchers ≡ some (dispatch buffer message).0
  pub others :
      (node_id : String)
      → q.node_id ≢ node_id
      → lookup node_id q.router.dispatchers ≡ lookup node_id r.dispatchers
  pub rest : q.router ≡ record r { dispatchers = q.router.dispatchers }
  pub told : q.events ≡ (dispatch buffer message).1

Moves-Delivers :
    (r : AgentRouter) (message : LaneMessage) (q : Routed)
    → Moves r message q
    → Delivers r message q
Moves-Delivers r message q (b, found, moved, told) =
    let buffers = ap (λ (x : AgentRouter). x.dispatchers) moved in
    record {
      buffer = b;
      had = found;
      took =
          ap (λ m. lookup q.node_id m) buffers
          ∙ lookup-insert_self q.node_id (dispatch b message).0 r.dispatchers;
      others = λ n other.
          ap (λ m. lookup n m) buffers
          ∙ lookup-insert_ne q.node_id n (dispatch b message).0 r.dispatchers other;
      rest = moved ∙ ap (λ m. record r { dispatchers = m }) (sym buffers);
      told = told;
    }

-- If a message is routed, then the node that is returned is the one that serves the agent that the
-- bindings name, or without such an agent the one that its channel is bound to; that node's buffer has
-- taken the message, and the other buffers and the rest of the router are as they were.
pub route-Delivers :
    (registry : NodeRegistry) (r : AgentRouter) (message : LaneMessage) (q : Routed)
    → route registry r message ≡ ok q
    → IsMeantFor registry r message q.node_id × Delivers r message q
route-Delivers registry r message q h =
    let (meant, moves) = route-Moves registry r message q h in
    (target-IsMeantFor registry r message q.node_id meant, Moves-Delivers r message q moves)
