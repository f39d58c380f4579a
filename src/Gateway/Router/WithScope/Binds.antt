-- ===== src/Gateway/Router/WithScope/Binds.antt =====
-- packages/gateway/src/router.ts: when `routeWithScope` binds a conversation.
use templar.Prelude.{ℕ, Option, none, some, String, ◌≡◌, refl, sym, ap, subst, ◌∙◌}
use templar.Prelude.Results.{Result, ok, err}
use templar.Gateway.Errors.{Outcome}
use templar.Gateway.Lanes.{LaneMessage}
use templar.Gateway.Registry.{NodeRegistry}
use templar.Gateway.Conversations.{ConversationStore, ConversationBinding, new_binding}
use templar.Gateway.Conversations as Conversations
use templar.Gateway.Keys.{ConversationKeyResult, KeyError}
use templar.Gateway.Router.{AgentRouter, Routed, route}
use templar.Gateway.Router.WithScope.{
  RouteError, bad_key, not_routed, ScopedRoute, resolve_conversation, bind_conversation,
  after_route, with_key, route_with_scope,
}
use templar.Prelude.Maps.{lookup}
use templar.Gateway.Conversations.Bind.{bind-lookup}
use templar.Gateway.Router.Meaning.{IsMeantFor, target-IsMeantFor}
use templar.Gateway.Router.Dispatch.{target, route-Moves}

-- The store of a router after a conversation is bound, if it has a store.
abbrev pub bound_in : Option ConversationStore → String → String → ℕ → Option ConversationStore
bound_in none key node_id now = none
bound_in (some store) key node_id now = some (Conversations.bind store key node_id now).0

-- What a scoped route that returns has done.
pub record Completes (registry : NodeRegistry) (r : AgentRouter) (message : LaneMessage)
    (agent_id : String) (now : ℕ) (s : ScopedRoute) : Type 0 where
  pub resolved : resolve_conversation r message agent_id ≡ ok s.key_result
  pub targeted : target registry r message ≡ ok s.routed.node_id
  pub bound :
      s.routed.router.conversation_store
      ≡ bound_in r.conversation_store s.key_result.key s.routed.node_id now

-- What a scoped route that fails reports: the error of the key, or that of the dispatch.
abbrev pub Fails : NodeRegistry → AgentRouter → LaneMessage → String → RouteError → Type 0
Fails registry r message agent_id (bad_key e) = resolve_conversation r message agent_id ≡ err e
Fails registry r message agent_id (not_routed e) = route registry r message ≡ err e

abbrev pub Reports :
    NodeRegistry → AgentRouter → LaneMessage → String → ℕ → Result RouteError ScopedRoute → Type 0
Reports registry r message agent_id now (ok s) = Completes registry r message agent_id now s
Reports registry r message agent_id now (err e) = Fails registry r message agent_id e

store_kept :
    (registry : NodeRegistry) (r : AgentRouter) (message : LaneMessage) (q : Routed)
    → route registry r message ≡ ok q
    → q.router.conversation_store ≡ r.conversation_store
store_kept registry r message q h =
    let (b, _, moved, _) = (route-Moves registry r message q h).1 in
    ap (λ (x : AgentRouter). x.conversation_store) moved

bind_conversation-Completes :
    (registry : NodeRegistry) (r : AgentRouter) (message : LaneMessage) (agent_id : String)
    (now : ℕ) (result : ConversationKeyResult) (q : Routed) (o : Option ConversationStore)
    → resolve_conversation r message agent_id ≡ ok result
    → target registry r message ≡ ok q.node_id
    → q.router.conversation_store ≡ o
    → r.conversation_store ≡ o
    → Completes registry r message agent_id now (bind_conversation q result now o)
unfolding bind_conversation
bind_conversation-Completes registry r message agent_id now result q none key chosen here there =
    record {
      resolved = key;
      targeted = chosen;
      bound = here ∙ ap (λ s. bound_in s result.key q.node_id now) (sym there);
    }
bind_conversation-Completes registry r message agent_id now result q (some store) key chosen here
      there =
    record {
      resolved = key;
      targeted = chosen;
      bound = ap (λ s. bound_in s result.key q.node_id now) (sym there);
    }

after_route-Reports :
    (registry : NodeRegistry) (r : AgentRouter) (message : LaneMessage) (agent_id : String)
    (now : ℕ) (result : ConversationKeyResult) (o : Outcome Routed)
    → resolve_conversation r message agent_id ≡ ok result
    → route registry r message ≡ o
    → Reports registry r message agent_id now (after_route result now o)
unfolding after_route
after_route-Reports registry r message agent_id now result (err e) key routed = routed
after_route-Reports registry r message agent_id now result (ok q) key routed =
    bind_conversation-Completes registry r message agent_id now result q q.router.conversation_store
      key (route-Moves registry r message q routed).0 refl
      (sym (store_kept registry r message q routed))

-- The outcome, branch by branch.
route_with_scope-Reports :
    (registry : NodeRegistry) (r : AgentRouter) (message : LaneMessage) (agent_id : String)
    (now : ℕ)
    → Reports registry r message agent_id now (route_with_scope registry r message agent_id now).1
unfolding route_with_scope with_key
route_with_scope-Reports registry r message agent_id now =
    by_key (resolve_conversation r message agent_id) refl
  where
    by_key :
        (o : Result KeyError ConversationKeyResult)
        → resolve_conversation r message agent_id ≡ o
        → Reports registry r message agent_id now (with_key registry r message agent_id now o).1
    by_key (err e) key = key
    by_key (ok result) key =
        after_route-Reports registry r message agent_id now result (route registry r message) key
          refl

-- If a message is routed with a scope by a router that has a conversation store, then the key is the one
-- that is resolved for the message and the agent, the message was meant for the node that is returned,
-- and in the store that the router then has, the conversation of that key is bound to that node and
-- active now.
pub route_with_scope-Binds :
    (registry : NodeRegistry) (r : AgentRouter) (message : LaneMessage) (agent_id : String)
    (now : ℕ) (store : ConversationStore) (s : ScopedRoute)
    → r.conversation_store ≡ some store
    → (route_with_scope registry r message agent_id now).1 ≡ ok s
    → (resolve_conversation r message agent_id ≡ ok s.key_result)
      × IsMeantFor registry r message s.routed.node_id
      × (after : ConversationStore) × (b : ConversationBinding)
      × (s.routed.router.conversation_store ≡ some after)
      × (lookup s.key_result.key after.bindings ≡ some b)
      × (b.node_id ≡ s.routed.node_id)
      × (b.last_active_at ≡ now)
route_with_scope-Binds registry r message agent_id now store s kept returned =
    let done : Completes registry r message agent_id now s =
      subst (Reports registry r message agent_id now) returned
        (route_with_scope-Reports registry r message agent_id now) in
    let key = s.key_result.key in
    let node_id = s.routed.node_id in
    (
      done.resolved,
      target-IsMeantFor registry r message node_id done.targeted,
      (Conversations.bind store key node_id now).0,
      new_binding key node_id now (lookup key store.bindings),
      done.bound ∙ ap (λ (o : Option ConversationStore). bound_in o key node_id now) kept,
      bind-lookup store key node_id now,
      refl,
      refl,
    )
