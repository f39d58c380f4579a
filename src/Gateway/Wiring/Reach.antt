-- ===== src/Gateway/Wiring/Reach.antt =====
-- packages/gateway/src/gateway.ts: each call of the gateway, and every sequence of calls, keeps the
-- registry, the sessions and the router in agreement.
use templar.Prelude.{
  ℕ, ◌<◌, Option, none, some, Bool-cases, List, [], ◌∷◌, String, ◌≡◌, refl, sym, subst, ◌∙◌, inl,
  inr,
}
use templar.Prelude.Maps.{lookup, has, Unique}
use templar.Prelude.Domains.{has-insert_present, has-some}
use templar.Prelude.Results.{ok, err, IfOk, IfOk-intro, IfOk-elim, IfOk-bind}
use templar.Gateway.Bindings.{AgentBinding, update_bindings}
use templar.Gateway.Bindings as Bindings
use templar.Gateway.Errors.{Outcome}
use templar.Gateway.Lanes.{LaneMessage}
use templar.Gateway.Registry.{NodeRegistry, mark_alive, empty}
use templar.Gateway.Registry.Domain.{mark_alive-nodes}
use templar.Gateway.SessionProtocol.{disconnect, heartbeat}
use templar.Gateway.Session.{on_transition}
use templar.Gateway.Buffer.{dispatch}
use templar.Gateway.Keys.{present}
use templar.Gateway.Router.{
  AgentRouter, Routed, route, set_agent_node_resolver, set_conversation_scope,
  set_conversation_store, set_binding_resolver,
}
use templar.Gateway.Router.Dispatch.{route-Moves}
use templar.Gateway.Wiring.{
  TemplarGateway, Frame, GatewayConfig, init, new_gateway, new_router, with_bindings,
}
use templar.Gateway.Wiring.Messages.{
  disconnect_node, handle_disconnect, pong_node, handle_pong, finish_lane_message, deliver,
  check_pairing, lane_message_from, handle_lane_message, ack_from, handle_lane_message_ack,
  direct_peer,
}
use templar.Gateway.Wiring.Steps.{
  Call, registers, deregisters, disconnects, pongs, sends, acks, binds, unbinds, dies, session,
  step, run,
}
use templar.Gateway.Wiring.Wired.{IsRouted, bind-IsRouted, unbind-IsRouted, mark_alive-IsRouted}
use templar.Gateway.Wiring.Run.{
  IsWired, cleanup_node-IsWired, complete_node_register-IsWired, handle_node_deregister-IsWired,
  session_event-IsWired,
}
use templar.Pairing.Guard.{PairingGuard}

new_router-IsRouted : (config : GatewayConfig) → IsRouted empty (new_router config)
unfolding has lookup Unique set_agent_node_resolver set_conversation_scope set_conversation_store
new_router-IsRouted config = record {
  dispatched = λ k. refl;
  bound = λ c. tt;
  unique = tt;
  indexed = λ a. refl;
  resolver = refl;
}

with_bindings-IsRouted :
    (r : AgentRouter) (bindings : Option (List AgentBinding))
    → IsRouted empty r
    → IfOk (IsRouted empty) (with_bindings r bindings)
unfolding with_bindings set_binding_resolver
with_bindings-IsRouted r none v = v
with_bindings-IsRouted r (some []) v = v
with_bindings-IsRouted r (some (b ∷ bindings)) v =
    let compiled = update_bindings Bindings.init (b ∷ bindings) in
    IfOk-bind (λ resolver. compiled ≡ ok resolver) (IsRouted empty) compiled
      (λ resolver. ok (set_binding_resolver r resolver))
      (IfOk-intro (λ resolver. compiled ≡ ok resolver) compiled (λ resolver e. e))
      (λ resolver e. record {
        dispatched = v.dispatched;
        bound = v.bound;
        unique = v.unique;
        indexed = v.indexed;
        resolver = v.resolver;
      })

new_gateway-IsWired :
    (config : GatewayConfig) (guard : Option PairingGuard) (router : AgentRouter)
    → 0 < config.lane_capacity
    → IsRouted empty router
    → IsWired (new_gateway config guard router)
unfolding has lookup on_transition
new_gateway-IsWired config guard router room v = record {
  routed = v;
  served = record { served = λ k. refl; handled = refl };
  roomy = room;
}

init-IsWired :
    (config : GatewayConfig) (guard : Option PairingGuard) (g : TemplarGateway)
    → 0 < config.lane_capacity
    → init config guard ≡ ok g
    → IsWired g
unfolding init
init-IsWired config guard g room made =
    IfOk-elim IsWired (init config guard) g
      (IfOk-bind (IsRouted empty) IsWired (with_bindings (new_router config) config.bindings)
        (λ router. ok (new_gateway config guard router))
        (with_bindings-IsRouted (new_router config) config.bindings (new_router-IsRouted config))
        (λ router v. new_gateway-IsWired config guard router room v))
      made

disconnect-IsWired :
    (g : TemplarGateway) (connection_id : String) (now : ℕ) (o : Option String)
    → IsWired g
    → IsWired (disconnect_node g connection_id now o).0
unfolding disconnect_node
disconnect-IsWired g connection_id now none v = v
disconnect-IsWired g connection_id now (some node_id) v =
    elim (Bool-cases (has node_id g.session_manager.sessions)) [
      | inr missing ↦ rw missing (record { routed = v.routed; served = v.served; roomy = v.roomy })
      | inl found ↦
          let w = session_event-IsWired g node_id disconnect now v in
          rw found (record { routed = w.routed; served = w.served; roomy = w.roomy })
    ]

pong-IsWired :
    (g : TemplarGateway) (now : ℕ) (o : Option String) → IsWired g → IsWired (pong_node g now o).0
unfolding pong_node
pong-IsWired g now none v = v
pong-IsWired g now (some node_id) v =
    session_event-IsWired (record g { registry = mark_alive g.registry node_id now }) node_id
      heartbeat now
      (record {
        routed = mark_alive-IsRouted g.registry g.router node_id now v.routed;
        served = record {
          served = λ k. v.served.served k ∙ sym (mark_alive-nodes g.registry node_id k now);
          handled = v.served.handled;
        };
        roomy = v.roomy;
      })

-- A routed message gives its node's buffer a new value, and changes nothing else of the router.
route-IsRouted :
    (nodes registry : NodeRegistry) (r : AgentRouter) (message : LaneMessage) (q : Routed)
    → route registry r message ≡ ok q
    → IsRouted nodes r
    → IsRouted nodes q.router
route-IsRouted nodes registry r message q h v =
    let (b, found, moved, _) = (route-Moves registry r message q h).1 in
    subst (IsRouted nodes) (sym moved) (record {
      dispatched = λ k.
          has-insert_present q.node_id k (dispatch b message).0 r.dispatchers
            (has-some q.node_id b r.dispatchers found)
          ∙ v.dispatched k;
      bound = v.bound;
      unique = v.unique;
      indexed = v.indexed;
      resolver = v.resolver;
    })

finish-IsWired :
    (g : TemplarGateway) (connection_id node_id : String) (message : LaneMessage) (now : ℕ)
    (o : Outcome Routed)
    → route g.registry g.router message ≡ o
    → IsWired g
    → IsWired (finish_lane_message g connection_id node_id message now o).0
unfolding finish_lane_message
finish-IsWired g connection_id node_id message now (err e) h v = v
finish-IsWired g connection_id node_id message now (ok q) h v = record {
  routed = route-IsRouted g.registry g.registry g.router message q h v.routed;
  served = v.served;
  roomy = v.roomy;
}

deliver-IsWired :
    (g : TemplarGateway) (connection_id node_id : String) (message : LaneMessage) (now : ℕ)
    (refusal : Option Frame)
    → IsWired g
    → IsWired (deliver g connection_id node_id message now refusal).0
unfolding deliver
deliver-IsWired g connection_id node_id message now (some refusal) v = v
deliver-IsWired g connection_id node_id message now none v =
    finish-IsWired g connection_id node_id message now (route g.registry g.router message) refl v

ack-IsWired :
    (g : TemplarGateway) (message_id : String) (o : Option String)
    → IsWired g
    → IsWired (ack_from g message_id o)
unfolding ack_from
ack-IsWired g message_id none v = v
ack-IsWired g message_id (some node_id) v = record {
  routed = v.routed;
  served = v.served;
  roomy = v.roomy;
}

module _ (extract : String → Option String) (text : LaneMessage → Option String) where
  check_pairing-IsWired :
      (g : TemplarGateway) (node_id : String) (message : LaneMessage) (now : ℕ)
      (guard : Option PairingGuard) (peer : Option String)
      → IsWired g
      → IsWired (check_pairing extract text g node_id message now guard peer).0
  unfolding check_pairing
  check_pairing-IsWired g node_id message now none peer v = v
  check_pairing-IsWired g node_id message now (some guard) none v = v
  check_pairing-IsWired g node_id message now (some guard) (some peer_id) v = record {
    routed = v.routed;
    served = v.served;
    roomy = v.roomy;
  }

  send-IsWired :
      (g : TemplarGateway) (connection_id : String) (message : LaneMessage) (now : ℕ)
      (o : Option String)
      → IsWired g
      → IsWired (lane_message_from extract text g connection_id message now o).0
  unfolding lane_message_from
  send-IsWired g connection_id message now none v = v
  send-IsWired g connection_id message now (some node_id) v =
      let checked =
        check_pairing extract text g node_id message now g.pairing_guard
          (direct_peer message.routing_context) in
      deliver-IsWired checked.0 connection_id node_id message now checked.1 (
        check_pairing-IsWired g node_id message now g.pairing_guard
          (direct_peer message.routing_context) v)

  step-IsWired : (g : TemplarGateway) (c : Call) → IsWired g → IsWired (step extract text g c)
  unfolding step handle_disconnect handle_pong handle_lane_message handle_lane_message_ack
  step-IsWired g (registers connection_id node_id capabilities uuid now) v =
      complete_node_register-IsWired g connection_id node_id capabilities uuid now v
  step-IsWired g (deregisters connection_id node_id) v =
      handle_node_deregister-IsWired g connection_id node_id v
  step-IsWired g (disconnects connection_id now) v =
      disconnect-IsWired g connection_id now (present (lookup connection_id g.connection_to_node)) v
  step-IsWired g (pongs connection_id now) v =
      pong-IsWired g now (present (lookup connection_id g.connection_to_node)) v
  step-IsWired g (sends connection_id message now) v =
      send-IsWired g connection_id message now (present (lookup connection_id g.connection_to_node))
        v
  step-IsWired g (acks connection_id message_id) v =
      ack-IsWired g message_id (present (lookup connection_id g.connection_to_node)) v
  step-IsWired g (binds channel_id node_id) v = record {
    routed = bind-IsRouted g.registry g.router channel_id node_id v.routed;
    served = v.served;
    roomy = v.roomy;
  }
  step-IsWired g (unbinds channel_id) v = record {
    routed = unbind-IsRouted g.registry g.router channel_id v.routed;
    served = v.served;
    roomy = v.roomy;
  }
  step-IsWired g (dies node_id) v = cleanup_node-IsWired g node_id v
  step-IsWired g (session node_id event now) v = session_event-IsWired g node_id event now v

  run-IsWired :
      (g : TemplarGateway) (calls : List Call) → IsWired g → IsWired (run extract text g calls)
  unfolding run
  run-IsWired g [] v = v
  run-IsWired g (c ∷ calls) v = run-IsWired (step extract text g c) calls (step-IsWired g c v)

  -- After any sequence of registrations, deregistrations, disconnects, pongs, messages, acknowledgements,
  -- bindings, deaths and session events of a new gateway whose buffers have room, the registry, the
  -- sessions and the router agree: the nodes with a buffer and those with a session are exactly the
  -- registered ones, and channels and agents lead to registered nodes only.
  pub gateway_run-IsWired :
      (config : GatewayConfig) (guard : Option PairingGuard) (g : TemplarGateway)
      (calls : List Call)
      → 0 < config.lane_capacity
      → init config guard ≡ ok g
      → IsWired (run extract text g calls)
  gateway_run-IsWired config guard g calls room made =
      run-IsWired g calls (init-IsWired config guard g room made)
