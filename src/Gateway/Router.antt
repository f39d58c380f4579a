-- ===== src/Gateway/Router.antt =====
-- packages/gateway/src/router.ts. The router holds the buffers and the conversation store, and a call
-- that changes one of these objects puts the changed one in its place. The registry, which the source
-- keeps by reference, is an argument, and the callback from agents to nodes is a function of it. Of the
-- degradation handler the router keeps only that it is set: a call returns what it is told.
pub mod Dispatch
pub mod Meaning
pub mod WithScope
mod Tests
use templar.Prelude.{
  ℕ, Bool, true, false, not, Option, none, some, List, [], ◌∷◌, String, if◌then◌else◌, str_eq,
}
use templar.Prelude.Maps.{Map, lookup, has, insert, erase, map_filter}
use templar.Prelude.Results.{Result, ok, err, ◌>>=◌}
use templar.Prelude.Text.{◌<>◌}
use templar.Gateway.Errors.{GatewayError, node_not_found, agent_not_found, Outcome}
use templar.Gateway.Lanes.{LaneMessage, MessageRoutingContext, MessageType}
use templar.Gateway.Registry.{NodeRegistry}
use templar.Gateway.Buffer.{MessageBuffer, Event, dispatch, drain}
use templar.Gateway.Bindings.{BindingResolver, resolve}
use templar.Gateway.Conversations.{ConversationStore, CapacityWarning}
use templar.Gateway.Conversations as Conversations
use templar.Gateway.Keys.{
  ConversationScope, per_channel_peer, ConversationKeyInput, ConversationKeyResult, KeyError,
  Warning, present, resolve_conversation_key,
}

pub record AgentRouter : Type 0 where
  pub channel_bindings : Map String
  pub dispatchers : Map MessageBuffer
  pub conversation_store : Option ConversationStore
  pub conversation_scope : ConversationScope
  pub agent_scopes : Map ConversationScope
  pub binding_resolver : Option BindingResolver
  pub agent_node_resolver : Option (NodeRegistry → String → Option String)
  pub degradation_handler : Bool

abbrev pub init : AgentRouter
init = record {
  channel_bindings = [];
  dispatchers = [];
  conversation_store = none;
  conversation_scope = per_channel_peer;
  agent_scopes = [];
  binding_resolver = none;
  agent_node_resolver = none;
  degradation_handler = false;
}

unfoldable pub bind : NodeRegistry → AgentRouter → String → String → Outcome AgentRouter
bind registry r channel_id node_id =
    if not (has node_id registry.nodes)
    then err (node_not_found node_id)
    else ok (record r { channel_bindings = insert channel_id node_id r.channel_bindings })

unfoldable pub unbind : AgentRouter → String → AgentRouter
unbind r channel_id = record r { channel_bindings = erase channel_id r.channel_bindings }

unfoldable pub set_dispatcher : AgentRouter → String → MessageBuffer → AgentRouter
set_dispatcher r node_id dispatcher = record r {
  dispatchers = insert node_id dispatcher r.dispatchers;
}

unfoldable pub remove_dispatcher : AgentRouter → String → AgentRouter
remove_dispatcher r node_id = record r {
  dispatchers = erase node_id r.dispatchers;
  channel_bindings = map_filter (λ channel bound. not (str_eq bound node_id)) r.channel_bindings;
}

unfoldable pub set_binding_resolver : AgentRouter → BindingResolver → AgentRouter
set_binding_resolver r resolver = record r { binding_resolver = some resolver }

unfoldable pub set_agent_node_resolver :
    AgentRouter → (NodeRegistry → String → Option String) → AgentRouter
set_agent_node_resolver r resolver = record r { agent_node_resolver = some resolver }

-- What `route` leaves: the router, the node that it returns, and the buffer's events.
pub record Routed : Type 0 where
  pub router : AgentRouter
  pub node_id : String
  pub events : List Event

unfoldable pub dispatch_found :
    AgentRouter → String → LaneMessage → Option MessageBuffer → Outcome Routed
dispatch_found r node_id message none = err (node_not_found node_id)
dispatch_found r node_id message (some dispatcher) =
    let (dispatcher', events) = dispatch dispatcher message in
    ok (record {
      router = record r { dispatchers = insert node_id dispatcher' r.dispatchers };
      node_id = node_id;
      events = events;
    })

unfoldable pub dispatch_to_node : AgentRouter → String → LaneMessage → Outcome Routed
unfolding dispatch_found
dispatch_to_node r node_id message = dispatch_found r node_id message (lookup node_id r.dispatchers)

-- The node of an agent; an empty name counts as none.
unfoldable pub node_of_agent :
    NodeRegistry → Option (NodeRegistry → String → Option String) → String → Outcome String
node_of_agent registry none agent_id = err (agent_not_found agent_id)
node_of_agent registry (some resolver) agent_id = elim (present (resolver registry agent_id)) [
  | none ↦ err (agent_not_found agent_id)
  | some node_id ↦ ok node_id
]

pub resolve_and_dispatch_agent : NodeRegistry → AgentRouter → String → LaneMessage → Outcome Routed
unfolding node_of_agent dispatch_to_node
resolve_and_dispatch_agent registry r agent_id message = do
  node_id ← node_of_agent registry r.agent_node_resolver agent_id
  dispatch_to_node r node_id message

abbrev pub no_binding : String → GatewayError
no_binding channel_id = node_not_found ("No binding for channel '" <> channel_id <> "'")

unfoldable pub node_of_channel : AgentRouter → String → Outcome String
node_of_channel r channel_id = elim (present (lookup channel_id r.channel_bindings)) [
  | none ↦ err (no_binding channel_id)
  | some node_id ↦ ok node_id
]

pub resolve_and_dispatch_channel : AgentRouter → LaneMessage → Outcome Routed
unfolding node_of_channel dispatch_to_node
resolve_and_dispatch_channel r message = do
  node_id ← node_of_channel r message.channel_id
  dispatch_to_node r node_id message

-- The agent of a message: none without a resolver, and an empty name counts as none.
unfoldable pub agent_of : Option BindingResolver → LaneMessage → Option String
agent_of none message = none
agent_of (some resolver) message = present (resolve resolver message)

pub route_by : NodeRegistry → AgentRouter → LaneMessage → Option String → Outcome Routed
unfolding resolve_and_dispatch_agent resolve_and_dispatch_channel
route_by registry r message none = resolve_and_dispatch_channel r message
route_by registry r message (some agent_id) = resolve_and_dispatch_agent registry r agent_id message

pub route : NodeRegistry → AgentRouter → LaneMessage → Outcome Routed
unfolding route_by agent_of
route registry r message = route_by registry r message (agent_of r.binding_resolver message)

-- `map.get(k) ?? d`
abbrev pub or_default : {A : Type 0} → Option A → A → A
or_default none d = d
or_default (some a) d = a

pub get_effective_scope : AgentRouter → String → ConversationScope
get_effective_scope r agent_id = or_default (lookup agent_id r.agent_scopes) r.conversation_scope

pub drain_node : AgentRouter → String → Outcome (AgentRouter × Option (List LaneMessage))
drain_node r node_id = elim (lookup node_id r.dispatchers) [
  | none ↦ err (node_not_found node_id)
  | some dispatcher ↦
      let (dispatcher', messages) = drain dispatcher in
      ok (record r { dispatchers = insert node_id dispatcher' r.dispatchers }, messages)
]

unfoldable pub set_conversation_store : AgentRouter → ConversationStore → AgentRouter
set_conversation_store r store = record r { conversation_store = some store }

unfoldable pub set_conversation_scope : AgentRouter → ConversationScope → AgentRouter
set_conversation_scope r scope = record r { conversation_scope = scope }

pub set_agent_scope : AgentRouter → String → ConversationScope → AgentRouter
set_agent_scope r agent_id scope = record r { agent_scopes = insert agent_id scope r.agent_scopes }

pub remove_agent_scope : AgentRouter → String → AgentRouter
remove_agent_scope r agent_id = record r { agent_scopes = erase agent_id r.agent_scopes }

pub on_degradation : AgentRouter → AgentRouter
on_degradation r = record r { degradation_handler = true }
