-- ===== src/Gateway/Wiring/Routes.antt =====
-- packages/gateway/src/gateway.ts: in a gateway whose parts agree, a message that leads to a node reaches
-- that node's buffer.
use templar.Prelude.{
  ◌<◌, true, Option, none, some, Option-cases, List, String, ◌≡◌, ap, subst, ◌∙◌, arith, inl, inr,
}
use templar.Prelude.Maps.{lookup, has, has-lookup, Each-lookup}
use templar.Prelude.Domains.{has-found}
use templar.Prelude.Results.{ok, ◌>>=◌}
use templar.Gateway.Lanes.{LaneMessage}
use templar.Gateway.Registry.{NodeRegistry, resolve_agent}
use templar.Gateway.Registry.Index.{is_indexed}
use templar.Gateway.Buffer.{MessageBuffer, dispatch}
use templar.Gateway.Keys.{present}
use templar.Gateway.Router.{
  AgentRouter, route, agent_of, node_of_agent, node_of_channel, dispatch_to_node, dispatch_found,
}
use templar.Gateway.Router.Dispatch.{target, target_by, route-target, handed}
use templar.Gateway.Router.Meaning.{IsMeantFor, IsMeantFor-target}
use templar.Gateway.Wiring.{TemplarGateway, GatewayConfig, init}
use templar.Gateway.Wiring.Steps.{Call, run}
use templar.Gateway.Wiring.Wired.{IsRouted}
use templar.Gateway.Wiring.Run.{IsWired}
use templar.Gateway.Wiring.Reach.{gateway_run-IsWired}
use templar.Pairing.Guard.{PairingGuard}

present-some : (o : Option String) (v : String) → present o ≡ some v → o ≡ some v
present-some none v h = h
present-some (some w) v h = ground (arith)

channel-registered :
    (nodes : NodeRegistry) (r : AgentRouter) (channel_id node_id : String)
    → IsRouted nodes r
    → node_of_channel r channel_id ≡ ok node_id
    → has node_id nodes.nodes ≡ true
unfolding node_of_channel
channel-registered nodes r channel_id node_id v h =
    elim (Option-cases (present (lookup channel_id r.channel_bindings))) [
      | inl e ↦ ground (arith, e)
      | inr (n, e) ↦
          let same : n ≡ node_id = ground (arith, e) in
          subst (λ i. has i nodes.nodes ≡ true) same
            (Each-lookup (λ c i. has i nodes.nodes ≡ true) r.channel_bindings v.bound channel_id n
              (present-some (lookup channel_id r.channel_bindings) n e))
    ]

agent-registered :
    (nodes : NodeRegistry) (agent_id node_id : String)
    → is_indexed nodes agent_id ≡ true
    → node_of_agent nodes (some resolve_agent) agent_id ≡ ok node_id
    → has node_id nodes.nodes ≡ true
unfolding node_of_agent
agent-registered nodes agent_id node_id indexed h =
    elim (Option-cases (present (resolve_agent nodes agent_id))) [
      | inl e ↦ ground (arith, e)
      | inr (n, e) ↦
          let same : n ≡ node_id = ground (arith, e) in
          let known : resolve_agent nodes agent_id ≡ some n =
            present-some (resolve_agent nodes agent_id) n e in
          subst (λ i. has i nodes.nodes ≡ true) same
            (ground (arith, known, has-lookup n nodes.nodes))
    ]

target-registered :
    (nodes : NodeRegistry) (r : AgentRouter) (message : LaneMessage) (agent : Option String)
    (node_id : String)
    → IsRouted nodes r
    → target_by nodes r message agent ≡ ok node_id
    → has node_id nodes.nodes ≡ true
unfolding target_by
target-registered nodes r message none node_id v h =
    channel-registered nodes r message.channel_id node_id v h
target-registered nodes r message (some agent_id) node_id v h =
    agent-registered nodes agent_id node_id (v.indexed agent_id)
      (subst (λ o. node_of_agent nodes o agent_id ≡ ok node_id) v.resolver h)

-- A gateway delivers a message to a node when the routed message has gone to that node's buffer.
abbrev pub DeliversTo : TemplarGateway → LaneMessage → String → Type 0
DeliversTo g message node_id =
    (b : MessageBuffer) × (lookup node_id g.router.dispatchers ≡ some b)
    × (route g.registry g.router message
        ≡ ok (record {
          router = handed g.router node_id message b;
          node_id = node_id;
          events = (dispatch b message).1;
        }))

pub IsWired-DeliversTo :
    (g : TemplarGateway) (message : LaneMessage) (node_id : String)
    → IsWired g
    → target g.registry g.router message ≡ ok node_id
    → DeliversTo g message node_id
unfolding target dispatch_to_node dispatch_found
IsWired-DeliversTo g message node_id v h =
    let registered =
      target-registered g.registry g.router message (agent_of g.router.binding_resolver message)
        node_id v.routed h in
    let (b, found) =
      has-found node_id g.router.dispatchers (v.routed.dispatched node_id ∙ registered) in
    (
      b,
      found,
      route-target g.registry g.router message
          ∙ ap (λ o. o >>= (λ n. dispatch_to_node g.router n message)) h
          ∙ ap (dispatch_found g.router node_id message) found,
    )

module _ (extract : String → Option String) (text : LaneMessage → Option String) where
  -- In a gateway that any sequence of calls leads to from a new one whose buffers have room, with or
  -- without bindings of agents, a message is routed if its bindings name an agent that a node serves, or
  -- if they name no agent and its channel is bound to a node: routing returns that node, and its buffer
  -- has taken the message. It never fails for want of a buffer.
  pub gateway_run-DeliversTo :
      (config : GatewayConfig) (guard : Option PairingGuard) (g : TemplarGateway)
      (calls : List Call) (message : LaneMessage) (node_id : String)
      → 0 < config.lane_capacity
      → init config guard ≡ ok g
      → IsMeantFor
          (run extract text g calls).registry
          (run extract text g calls).router
          message
          node_id
      → DeliversTo (run extract text g calls) message node_id
  gateway_run-DeliversTo config guard g calls message node_id room made meant =
      let g' = run extract text g calls in
      IsWired-DeliversTo g' message node_id
        (gateway_run-IsWired extract text config guard g calls room made)
        (IsMeantFor-target g'.registry g'.router message node_id meant)
