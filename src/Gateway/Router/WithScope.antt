-- ===== src/Gateway/Router/WithScope.antt =====
-- packages/gateway/src/router.ts: `resolveConversation` and `routeWithScope`.
pub mod Binds
mod Tests
use templar.Prelude.{ℕ, Option, none, some, List, [], ◌∷◌, String, if◌then◌else◌}
use templar.Prelude.Results.{Result, ok, err}
use templar.Gateway.Errors.{GatewayError, Outcome}
use templar.Gateway.Lanes.{LaneMessage, MessageRoutingContext}
use templar.Gateway.Registry.{NodeRegistry}
use templar.Gateway.Conversations.{ConversationStore, CapacityWarning}
use templar.Gateway.Conversations as Conversations
use templar.Gateway.Keys.{
  ConversationKeyInput, ConversationKeyResult, KeyError, Warning, resolve_conversation_key,
}
use templar.Gateway.Router.{AgentRouter, Routed, route, get_effective_scope}

-- `context?.field`
abbrev pub field :
    {A : Type 0} → (MessageRoutingContext → Option A) → Option MessageRoutingContext → Option A
field f none = none
field f (some context) = f context

pub input_of : AgentRouter → LaneMessage → String → ConversationKeyInput
unfolding get_effective_scope
input_of r message agent_id = record {
  scope = get_effective_scope r agent_id;
  agent_id = agent_id;
  channel_id = message.channel_id;
  peer_id = field (λ c. c.peer_id) message.routing_context;
  account_id = field (λ c. c.account_id) message.routing_context;
  group_id = field (λ c. c.group_id) message.routing_context;
  message_type = field (λ c. c.message_type) message.routing_context;
}

pub resolve_conversation :
    AgentRouter → LaneMessage → String → Result KeyError ConversationKeyResult
unfolding input_of
resolve_conversation r message agent_id = resolve_conversation_key (input_of r message agent_id)

pub data RouteError : Type 0 where
  bad_key : KeyError → RouteError
  not_routed : GatewayError → RouteError

-- What `routeWithScope` leaves if it returns.
pub record ScopedRoute : Type 0 where
  pub routed : Routed
  pub key_result : ConversationKeyResult
  pub capacity_warnings : List CapacityWarning

abbrev pub degradation : AgentRouter → String → ConversationKeyResult → List (String × List Warning)
degradation r agent_id result =
    if result.degraded
    then if r.degradation_handler then (agent_id, result.warnings) ∷ [] else []
    else []

pub bind_conversation : Routed → ConversationKeyResult → ℕ → Option ConversationStore → ScopedRoute
bind_conversation routed result now none = record {
  routed = routed;
  key_result = result;
  capacity_warnings = [];
}
bind_conversation routed result now (some store) =
    let (store', binding, warnings) = Conversations.bind store result.key routed.node_id now in
    record {
      routed = record routed { router = record routed.router { conversation_store = some store' } };
      key_result = result;
      capacity_warnings = warnings;
    }

pub after_route : ConversationKeyResult → ℕ → Outcome Routed → Result RouteError ScopedRoute
unfolding bind_conversation
after_route result now (err e) = err (not_routed e)
after_route result now (ok routed) =
    ok (bind_conversation routed result now routed.router.conversation_store)

-- What the degradation handler is told, which happens before the message is routed, and the outcome.
pub with_key :
    NodeRegistry
    → AgentRouter
    → LaneMessage
    → String
    → ℕ
    → Result KeyError ConversationKeyResult
    → List (String × List Warning) × Result RouteError ScopedRoute
unfolding after_route
with_key registry r message agent_id now (err e) = ([], err (bad_key e))
with_key registry r message agent_id now (ok result) =
    (degradation r agent_id result, after_route result now (route registry r message))

pub route_with_scope :
    NodeRegistry
    → AgentRouter
    → LaneMessage
    → String
    → ℕ
    → List (String × List Warning) × Result RouteError ScopedRoute
unfolding resolve_conversation with_key
route_with_scope registry r message agent_id now =
    with_key registry r message agent_id now (resolve_conversation r message agent_id)
