-- ===== src/Gateway/Wiring/Wired.antt =====
-- packages/gateway/src/gateway.ts: the registry, the sessions and the router know the same nodes.
use templar.Prelude.{
  ℕ, Bool, true, not, ◌&&◌, ◌||◌, Option, some, Bool-cases, [], ◌∷◌, String, str_eq, eq_iff, ◌≡◌,
  sym, ◌∙◌, arith, inl, inr,
}
use templar.Prelude.Maps.{has, Unique, insert-Unique, erase-Unique, map_filter-Unique, Each}
use templar.Prelude.Domains.{
  has-insert, has-erase, Each-insert, Each-erase, Each-map_filter, Each-map,
}
use templar.Gateway.Errors.{left}
use templar.Gateway.Registry.{NodeRegistry, resolve_agent, deregister, after, mark_alive}
use templar.Gateway.Registry.Index.{is_indexed, deregister-is_indexed, mark_alive-is_indexed}
use templar.Gateway.Registry.Domain.{deregister-nodes, mark_alive-nodes}
use templar.Gateway.Session.{SessionManager, destroy_session}
use templar.Gateway.Session.Domain.{destroy_session-sessions}
use templar.Gateway.Buffer.{MessageBuffer}
use templar.Gateway.Conversations.{ConversationStore}
use templar.Gateway.Router.{AgentRouter, bind, unbind, set_dispatcher, remove_dispatcher}

-- The router has a buffer for exactly the registered nodes, channels are bound to registered nodes, and
-- agents are those of registered nodes.
pub record IsRouted (nodes : NodeRegistry) (r : AgentRouter) : Type 0 where
  pub dispatched : (k : String) → has k r.dispatchers ≡ has k nodes.nodes
  pub bound : Each (λ channel_id node_id. has node_id nodes.nodes ≡ true) r.channel_bindings
  pub unique : Unique r.channel_bindings
  pub indexed : (agent_id : String) → is_indexed nodes agent_id ≡ true
  pub resolver : r.agent_node_resolver ≡ some resolve_agent

-- Exactly the registered nodes have a session, and the manager has the gateway's handler.
pub record IsServed (nodes : NodeRegistry) (m : SessionManager) : Type 0 where
  pub served : (k : String) → has k m.sessions ≡ has k nodes.nodes
  pub handled : m.handlers ≡ 0 ∷ []

abbrev cleaned : AgentRouter → String → Option ConversationStore → AgentRouter
cleaned r node_id store = record (remove_dispatcher r node_id) { conversation_store = store }

pub cleanup-IsRouted :
    (nodes : NodeRegistry) (r : AgentRouter) (node_id : String) (store : Option ConversationStore)
    → IsRouted nodes r
    → IsRouted (after nodes (deregister nodes node_id)) (cleaned r node_id store)
unfolding remove_dispatcher
cleanup-IsRouted nodes r node_id store v = record {
  dispatched = λ k.
      ground (
        arith,
        has-erase node_id k r.dispatchers,
        deregister-nodes nodes node_id k,
        v.dispatched k,
      );
  bound =
      Each-map_filter (λ channel_id bound. has bound nodes.nodes ≡ true)
        (λ channel_id bound. has bound (after nodes (deregister nodes node_id)).nodes ≡ true) others
        r.channel_bindings v.unique
        (λ channel_id bound other known. ground (
          arith,
          other,
          known,
          eq_iff node_id bound,
          eq_iff bound node_id,
          deregister-nodes nodes node_id bound,
        ))
        v.bound;
  unique = map_filter-Unique others r.channel_bindings v.unique;
  indexed = λ agent_id. deregister-is_indexed nodes node_id agent_id (v.indexed agent_id);
  resolver = v.resolver;
}
  where
    others : String → String → Bool
    others channel_id bound = not (str_eq bound node_id)

pub cleanup-IsServed :
    (nodes : NodeRegistry) (m : SessionManager) (node_id : String)
    → ((k : String)
        → (not (str_eq node_id k) && has k m.sessions)
          ≡ (not (str_eq node_id k) && has k nodes.nodes))
    → m.handlers ≡ 0 ∷ []
    → IsServed (after nodes (deregister nodes node_id)) (left m (destroy_session m node_id))
cleanup-IsServed nodes m node_id others handlers = record {
  served = λ k.
      (destroy_session-sessions m node_id k).0 ∙ others k ∙ sym (deregister-nodes nodes node_id k);
  handled = (destroy_session-sessions m node_id "").1 ∙ handlers;
}

pub add-IsRouted :
    (nodes nodes' : NodeRegistry) (r : AgentRouter) (node_id : String) (dispatcher : MessageBuffer)
    → IsRouted nodes r
    → ((k : String) → has k nodes'.nodes ≡ (str_eq node_id k || has k nodes.nodes))
    → ((agent_id : String) → is_indexed nodes' agent_id ≡ true)
    → IsRouted nodes' (set_dispatcher r node_id dispatcher)
unfolding set_dispatcher
add-IsRouted nodes nodes' r node_id dispatcher v added indexed = record {
  dispatched =
      λ k. ground (arith, has-insert node_id k dispatcher r.dispatchers, added k, v.dispatched k);
  bound =
      Each-map (λ channel_id bound. has bound nodes.nodes ≡ true)
        (λ channel_id bound. has bound nodes'.nodes ≡ true) r.channel_bindings
        (λ channel_id bound known. ground (arith, known, added bound)) v.bound;
  unique = v.unique;
  indexed = indexed;
  resolver = v.resolver;
}

pub bind-IsRouted :
    (nodes : NodeRegistry) (r : AgentRouter) (channel_id node_id : String)
    → IsRouted nodes r
    → IsRouted nodes (left r (bind nodes r channel_id node_id))
unfolding bind
bind-IsRouted nodes r channel_id node_id v = elim (Bool-cases (has node_id nodes.nodes)) [
  | inr unknown ↦ rw unknown v
  | inl known ↦ rw known (record {
    dispatched = v.dispatched;
    bound =
        Each-insert (λ c n. has n nodes.nodes ≡ true) channel_id node_id r.channel_bindings known
          v.bound;
    unique = insert-Unique channel_id node_id r.channel_bindings v.unique;
    indexed = v.indexed;
    resolver = v.resolver;
  })
]

pub unbind-IsRouted :
    (nodes : NodeRegistry) (r : AgentRouter) (channel_id : String)
    → IsRouted nodes r
    → IsRouted nodes (unbind r channel_id)
unfolding unbind
unbind-IsRouted nodes r channel_id v = record {
  dispatched = v.dispatched;
  bound = Each-erase (λ c n. has n nodes.nodes ≡ true) channel_id r.channel_bindings v.bound;
  unique = erase-Unique channel_id r.channel_bindings v.unique;
  indexed = v.indexed;
  resolver = v.resolver;
}

pub mark_alive-IsRouted :
    (nodes : NodeRegistry) (r : AgentRouter) (node_id : String) (now : ℕ)
    → IsRouted nodes r
    → IsRouted (mark_alive nodes node_id now) r
mark_alive-IsRouted nodes r node_id now v = record {
  dispatched = λ k. v.dispatched k ∙ sym (mark_alive-nodes nodes node_id k now);
  bound =
      Each-map (λ channel_id bound. has bound nodes.nodes ≡ true)
        (λ channel_id bound. has bound (mark_alive nodes node_id now).nodes ≡ true)
        r.channel_bindings
        (λ channel_id bound known. mark_alive-nodes nodes node_id bound now ∙ known) v.bound;
  unique = v.unique;
  indexed = λ agent_id. mark_alive-is_indexed nodes node_id now agent_id (v.indexed agent_id);
  resolver = v.resolver;
}
