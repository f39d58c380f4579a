-- ===== src/Gateway/Router/Dispatch.antt =====
-- packages/gateway/src/router.ts: what a routed message changes, and what a removed node no longer gets.
use templar.Prelude.{
  not, Option, none, some, Option-cases, String, str_eq, eq_iff, ◌≡◌, ◌≢◌, refl, sym, ap, ◌∙◌,
  arith, inl, inr,
}
use templar.Prelude.Maps.{
  lookup, erase, insert, lookup-erase_self, Unique, lookup-map_filter, map_filter,
}
use templar.Prelude.Results.{ok, ◌>>=◌, IfOk, IfOk-intro, IfOk-elim, IfOk-bind, IfOk-map}
use templar.Gateway.Errors.{Outcome}
use templar.Gateway.Lanes.{LaneMessage}
use templar.Gateway.Registry.{NodeRegistry}
use templar.Gateway.Buffer.{MessageBuffer, dispatch}
use templar.Gateway.Router.{
  AgentRouter, Routed, route, route_by, agent_of, node_of_agent, node_of_channel,
  resolve_and_dispatch_agent, resolve_and_dispatch_channel, dispatch_to_node, dispatch_found,
  remove_dispatcher,
}

-- The node that a message is meant for: that of the agent that its bindings name, and without one
-- that of its channel.
unfoldable pub target_by : NodeRegistry → AgentRouter → LaneMessage → Option String → Outcome String
target_by registry r message none = node_of_channel r message.channel_id
target_by registry r message (some agent_id) = node_of_agent registry r.agent_node_resolver agent_id

unfoldable pub target : NodeRegistry → AgentRouter → LaneMessage → Outcome String
unfolding target_by
target registry r message = target_by registry r message (agent_of r.binding_resolver message)

pub route-target :
    (registry : NodeRegistry) (r : AgentRouter) (message : LaneMessage)
    → route registry r message
      ≡ target registry r message >>= (λ node_id. dispatch_to_node r node_id message)
unfolding route route_by target target_by resolve_and_dispatch_agent resolve_and_dispatch_channel
route-target registry r message = by_agent (agent_of r.binding_resolver message)
  where
    by_agent :
        (agent : Option String)
        → route_by registry r message agent
          ≡ target_by registry r message agent >>= (λ node_id. dispatch_to_node r node_id message)
    by_agent none = refl
    by_agent (some agent_id) = refl

-- The router after the buffer of one node took a message.
abbrev pub handed : AgentRouter → String → LaneMessage → MessageBuffer → AgentRouter
handed r node_id message b = record r {
  dispatchers = insert node_id (dispatch b message).0 r.dispatchers;
}

abbrev pub Moves : AgentRouter → LaneMessage → Routed → Type 0
Moves r message q =
    (b : MessageBuffer) × (lookup q.node_id r.dispatchers ≡ some b)
    × (q.router ≡ handed r q.node_id message b)
    × (q.events ≡ (dispatch b message).1)

pub dispatch_to_node-Moves :
    (r : AgentRouter) (node_id : String) (message : LaneMessage)
    → IfOk (λ q. (q.node_id ≡ node_id) × Moves r message q) (dispatch_to_node r node_id message)
unfolding dispatch_to_node dispatch_found
dispatch_to_node-Moves r node_id message = by_buffer (lookup node_id r.dispatchers) refl
  where
    by_buffer :
        (o : Option MessageBuffer)
        → lookup node_id r.dispatchers ≡ o
        → IfOk (λ q. (q.node_id ≡ node_id) × Moves r message q) (dispatch_found r node_id message o)
    by_buffer none e = tt
    by_buffer (some b) e = (refl, (b, e, refl, refl))

-- A routed message has gone to the buffer of its target.
pub route-Moves :
    (registry : NodeRegistry) (r : AgentRouter) (message : LaneMessage) (q : Routed)
    → route registry r message ≡ ok q
    → (target registry r message ≡ ok q.node_id) × Moves r message q
route-Moves registry r message q h =
    IfOk-elim Good (target registry r message >>= dispatches) q
      (IfOk-bind (λ node_id. target registry r message ≡ ok node_id) Good
        (target registry r message) dispatches
        (IfOk-intro (λ node_id. target registry r message ≡ ok node_id) (target registry r message)
          (λ node_id e. e))
        (λ node_id e.
          IfOk-map (λ p. (p.node_id ≡ node_id) × Moves r message p) Good (dispatches node_id)
            (λ p d. (e ∙ ap ok (sym d.0), d.1)) (dispatch_to_node-Moves r node_id message)))
      (sym (route-target registry r message) ∙ h)
  where
    dispatches : String → Outcome Routed
    dispatches node_id = dispatch_to_node r node_id message

    Good : Routed → Type 0
    Good p = (target registry r message ≡ ok p.node_id) × Moves r message p

-- After a node's dispatcher is removed, no message is routed to that node, whichever way its bindings
-- or its channel point, and no channel is bound to it.
pub remove_dispatcher_lem :
    (registry : NodeRegistry) (r : AgentRouter) (node_id channel_id : String)
    (message : LaneMessage) (q : Routed)
    → Unique r.channel_bindings
    → route registry (remove_dispatcher r node_id) message ≡ ok q
    → (q.node_id ≢ node_id)
      × (lookup channel_id (remove_dispatcher r node_id).channel_bindings ≢ some node_id)
unfolding remove_dispatcher
remove_dispatcher_lem registry r node_id channel_id message q u h = (
  λ same. no_buffer (route-Moves registry (remove_dispatcher r node_id) message q h).1 same,
  not_bound,
)
  where
    not_bound :
        lookup channel_id
          (map_filter (λ channel bound. not (str_eq bound node_id)) r.channel_bindings)
        ≢ some node_id
    not_bound = elim (Option-cases (lookup channel_id r.channel_bindings)) [
      | inl e ↦ ground (
        arith,
        e,
        lookup-map_filter (λ channel bound. not (str_eq bound node_id)) channel_id
            r.channel_bindings u,
      )
      | inr (bound, e) ↦ ground (
        arith,
        e,
        eq_iff bound node_id,
        lookup-map_filter (λ channel bound. not (str_eq bound node_id)) channel_id
            r.channel_bindings u,
      )
    ]

    no_buffer : Moves (remove_dispatcher r node_id) message q → q.node_id ≢ node_id
    no_buffer (b, found, _, _) same =
        let none_left : lookup node_id (erase node_id r.dispatchers) ≡ none =
          lookup-erase_self node_id r.dispatchers in
        let clash : ◌≡◌ {A = Option MessageBuffer} none (some b) =
          sym none_left ∙ ap (λ n. lookup n (erase node_id r.dispatchers)) (sym same) ∙ found in
        cc
