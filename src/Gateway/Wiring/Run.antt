-- ===== src/Gateway/Wiring/Run.antt =====
-- packages/gateway/src/gateway.ts: what holds of the gateway after any sequence of calls.
use templar.Prelude.{
  ℕ, ◌<◌, Bool, true, false, not, ◌&&◌, ◌||◌, none, some, Option-cases, Bool-cases, [], ◌∷◌, map,
  String, str_eq, ◌≡◌, refl, sym, ap, subst, ◌∙◌, arith, inl, inr, if◌then◌else◌,
}
use templar.Prelude.Maps.{lookup, has, insert}
use templar.Prelude.Results.{ok, err, IfOk, IfOk-elim}
use templar.Gateway.Errors.{Outcome}
use templar.Gateway.Registry.{NodeRegistry, NodeCapabilities, register, after}
use templar.Gateway.Registry.Index.{is_indexed, register-is_indexed}
use templar.Gateway.Registry.Domain.{register-nodes}
use templar.Gateway.SessionProtocol.{SessionEvent, is_disconnected}
use templar.Gateway.Session.{Notice, handle_event}
use templar.Gateway.Session.Domain.{create_session-sessions, Handled, Done, handle_event-Handled}
use templar.Gateway.Buffer as Buffer
use templar.Gateway.Fifo as Fifo
use templar.Gateway.Buffer.{MessageBuffer}
use templar.Gateway.Keys.{present}
use templar.Gateway.Router.{remove_dispatcher}
use templar.Gateway.Wiring.{
  TemplarGateway, cleanup_node, clean_stale, add_node, add_session, add_dispatcher,
  complete_node_register, foreign, handle_node_deregister, on_notices, after_event, session_event,
  forget_conversations,
}
use templar.Gateway.Wiring.Messages.{settled}
use templar.Gateway.Wiring.Wired.{
  IsRouted, IsServed, cleanup-IsRouted, cleanup-IsServed, add-IsRouted,
}

-- The gateway's parts agree, and its buffers have room.
pub record IsWired (g : TemplarGateway) : Type 0 where
  pub routed : IsRouted g.registry g.router
  pub served : IsServed g.registry g.session_manager
  pub roomy : 0 < g.lane_capacity

buffer_init-some :
    (capacity : ℕ) → 0 < capacity → (b : MessageBuffer) × (Buffer.init capacity ≡ some b)
unfolding Buffer.init Fifo.init
buffer_init-some capacity h = elim (Option-cases (Buffer.init capacity)) [
  | inl refused ↦ ground arith
  | inr made ↦ made
]

pub cleanup_node-IsWired :
    (g : TemplarGateway) (node_id : String) → IsWired g → IsWired (cleanup_node g node_id)
unfolding cleanup_node
cleanup_node-IsWired g node_id v = record {
  routed =
      cleanup-IsRouted g.registry g.router node_id
        (forget_conversations node_id (remove_dispatcher g.router node_id).conversation_store)
        v.routed;
  served =
      cleanup-IsServed g.registry g.session_manager node_id
        (λ k. ap (λ b. not (str_eq node_id k) && b) (v.served.served k)) v.served.handled;
  roomy = v.roomy;
}

add_node-IsWired :
    (g : TemplarGateway) (connection_id node_id uuid : String) (capabilities : NodeCapabilities)
    (now : ℕ) (o : Outcome NodeRegistry)
    → register g.registry node_id capabilities now ≡ o
    → IsWired g
    → IsWired (add_node g connection_id node_id uuid now o).0
unfolding add_node add_session add_dispatcher
add_node-IsWired g connection_id node_id uuid capabilities now (err e) same v = v
add_node-IsWired g connection_id node_id uuid capabilities now (ok nodes) same v =
    let (unknown, added) =
      IfOk-elim
        (λ r.
          (has node_id g.registry.nodes ≡ false)
          × ((k : String) → has k r.nodes ≡ (str_eq node_id k || has k g.registry.nodes)))
        (register g.registry node_id capabilities now) nodes
        (register-nodes g.registry node_id capabilities now) same in
    let (result, created, sessions, handlers) =
      create_session-sessions g.session_manager uuid now node_id none
        (v.served.served node_id ∙ unknown) in
    let (dispatcher, room) = buffer_init-some g.lane_capacity v.roomy in
    let g' : TemplarGateway = record g {
      registry = nodes;
      connection_to_node = insert connection_id node_id g.connection_to_node;
      node_to_connection = insert node_id connection_id g.node_to_connection;
    } in
    let g'' : TemplarGateway = record g' { session_manager = result.0 } in
    subst (λ o. IsWired (add_session g' connection_id node_id o).0) (sym created)
      (subst (λ o. IsWired (add_dispatcher g'' connection_id node_id result.1 o).0) (sym room)
        (record {
          routed =
              add-IsRouted g.registry nodes g.router node_id dispatcher v.routed added (λ agent_id.
                subst (λ o. is_indexed (after g.registry o) agent_id ≡ true) same
                  (register-is_indexed g.registry node_id capabilities now agent_id
                    (v.routed.indexed agent_id)));
          served = record {
            served = λ k.
                sessions k ∙ ap (λ b. str_eq node_id k || b) (v.served.served k) ∙ sym (added k);
            handled = handlers ∙ v.served.handled;
          };
          roomy = v.roomy;
        }))

pub complete_node_register-IsWired :
    (g : TemplarGateway) (connection_id node_id : String) (capabilities : NodeCapabilities)
    (uuid : String) (now : ℕ)
    → IsWired g
    → IsWired (complete_node_register g connection_id node_id capabilities uuid now).0
unfolding complete_node_register clean_stale
complete_node_register-IsWired g connection_id node_id capabilities uuid now v =
    add_node-IsWired (clean_stale g connection_id node_id) connection_id node_id uuid capabilities
      now (register g.registry node_id capabilities now) refl
      (record { routed = v.routed; served = v.served; roomy = v.roomy })

pub handle_node_deregister-IsWired :
    (g : TemplarGateway) (connection_id node_id : String)
    → IsWired g
    → IsWired (handle_node_deregister g connection_id node_id).0
unfolding handle_node_deregister
handle_node_deregister-IsWired g connection_id node_id v =
    elim (Bool-cases (foreign (present (lookup node_id g.node_to_connection)) connection_id)) [
      | inl owned ↦ rw owned v
      | inr free ↦ rw free (cleanup_node-IsWired g node_id v)
    ]

branches :
    (x y : TemplarGateway) (valid disconnected : Bool)
    → ((valid && disconnected) ≡ true → IsWired x)
    → ((valid && disconnected) ≡ false → IsWired y)
    → IsWired (if valid then if disconnected then x else y else y)
branches x y true true hx hy = hx refl
branches x y true false hx hy = hy refl
branches x y false disconnected hx hy = hy refl

-- The gateway's handler, for the notice of an event that is handled.
on_notices-IsWired :
    (g : TemplarGateway) (node_id : String) (d : Done)
    → Handled g.session_manager node_id d.0 d.1 d.2
    → IsWired g
    → IsWired (on_notices (record g { session_manager = d.0 }) d.2).0
unfolding on_notices cleanup_node
on_notices-IsWired g node_id (m, result, notices) h v =
    let g' : TemplarGateway = record g { session_manager = m } in
    let notice : ℕ → Notice =
      λ i. record { handler = i; node_id = node_id; result = result; session = h.told.0 } in
    let one : notices ≡ (notice 0 ∷ []) = h.told.1 ∙ ap (map notice) v.served.handled in
    subst (λ l. IsWired (on_notices g' l).0) (sym one)
      (branches (cleanup_node g' node_id) g' result.valid (is_disconnected result.state)
        (λ ended. record {
          routed =
              cleanup-IsRouted g.registry g.router node_id
                (forget_conversations node_id
                  (remove_dispatcher g.router node_id).conversation_store)
                v.routed;
          served =
              cleanup-IsServed g.registry m node_id
                (λ k. ground (arith, ended, h.kept k, v.served.served k))
                (h.handlers_kept ∙ v.served.handled);
          roomy = v.roomy;
        })
        (λ going. record {
          routed = v.routed;
          served = record {
            served = λ k. ground (arith, going, h.kept k, v.served.served k);
            handled = h.handlers_kept ∙ v.served.handled;
          };
          roomy = v.roomy;
        }))

pub session_event-IsWired :
    (g : TemplarGateway) (node_id : String) (event : SessionEvent) (now : ℕ)
    → IsWired g
    → IsWired (settled g (session_event g node_id event now)).0
unfolding session_event after_event
session_event-IsWired g node_id event now v =
    by_outcome (handle_event g.session_manager node_id now event)
      (handle_event-Handled g.session_manager node_id now event)
  where
    by_outcome :
        (o : Outcome Done)
        → IfOk (λ (d : Done). Handled g.session_manager node_id d.0 d.1 d.2) o
        → IsWired (settled g (after_event g o)).0
    by_outcome (err e) h = v
    by_outcome (ok d) h = on_notices-IsWired g node_id d h v
