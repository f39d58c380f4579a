-- ===== src/Gateway/Wiring.antt =====
-- packages/gateway/src/gateway.ts: the state of `TemplarGateway` and the handlers of its registered
-- nodes. The conversation store stands in the router, which holds the same object. The frames that a
-- handler sends are a result, with the connection and without the texts of errors. There is no
-- delegation manager, which is optional; credentials are checked before `completeNodeRegister`.
pub mod Messages
pub mod Steps
pub mod Wired
pub mod Run
pub mod Reach
pub mod Routes
pub mod Hazards
mod Tests
use templar.Prelude.{
  ℕ, Bool, true, false, not, Option, none, some, List, [], ◌∷◌, ◌++◌, String, if◌then◌else◌, str_eq,
}
use templar.Prelude.Maps.{Map, lookup, has, insert, erase}
use templar.Prelude.Results.{Result, ok, err, ◌>>=◌}
use templar.Gateway.Bindings.{AgentBinding, PatternError, update_bindings}
use templar.Gateway.Bindings as Bindings
use templar.Gateway.Errors.{GatewayError, Outcome, left}
use templar.Gateway.Registry.{NodeRegistry, NodeCapabilities, resolve_agent, deregister, after}
use templar.Gateway.Registry as Registry
use templar.Gateway.SessionProtocol.{
  SessionEvent, disconnect, SessionInfo, TransitionResult, is_disconnected,
}
use templar.Gateway.Session.{
  SessionManager, SessionManagerConfig, Notice, create_session, handle_event, destroy_session,
  on_transition,
}
use templar.Gateway.Session as Session
use templar.Gateway.Delivery.{DeliveryTracker}
use templar.Gateway.Delivery as Delivery
use templar.Gateway.Buffer as Buffer
use templar.Gateway.Buffer.{MessageBuffer}
use templar.Gateway.Conversations.{ConversationStore, ConversationStoreConfig}
use templar.Gateway.Conversations as Conversations
use templar.Gateway.Keys.{ConversationScope, present}
use templar.Gateway.Router.{
  AgentRouter, set_dispatcher, remove_dispatcher, set_agent_node_resolver, set_conversation_store,
  set_conversation_scope, set_binding_resolver,
}
use templar.Gateway.Router as Router
use templar.Pairing.Guard.{PairingGuard}

pub record TemplarGateway : Type 0 where
  pub registry : NodeRegistry
  pub session_manager : SessionManager
  pub router : AgentRouter
  pub delivery_tracker : DeliveryTracker
  pub pairing_guard : Option PairingGuard
  pub lane_capacity : ℕ
  pub connection_to_node : Map String
  pub node_to_connection : Map String

-- The part of the configuration that the modelled handlers read.
pub record GatewayConfig : Type 0 where
  pub sessions : SessionManagerConfig
  pub conversations : ConversationStoreConfig
  pub default_conversation_scope : ConversationScope
  pub lane_capacity : ℕ
  pub bindings : Option (List AgentBinding)

pub data Frame : Type 0 where
  register_ack : (node_id session_id : String) → Frame
  message_ack : (message_id : String) → Frame
  session_update : SessionInfo → Frame
  error_frame : (title : String) (status : ℕ) → Frame

abbrev pub Sent : Type 0
Sent = List (String × Frame)

-- The parts that the constructor makes. The gateway's transition handler is number 0.
abbrev pub new_gateway : GatewayConfig → Option PairingGuard → AgentRouter → TemplarGateway
new_gateway config guard router = record {
  registry = Registry.empty;
  session_manager = on_transition (Session.init config.sessions) 0;
  router = router;
  delivery_tracker = Delivery.init config.lane_capacity;
  pairing_guard = guard;
  lane_capacity = config.lane_capacity;
  connection_to_node = [];
  node_to_connection = [];
}

abbrev pub new_router : GatewayConfig → AgentRouter
new_router config =
    set_agent_node_resolver
      (set_conversation_scope
        (set_conversation_store Router.init (Conversations.init config.conversations))
        config.default_conversation_scope)
      resolve_agent

-- `config.bindings && config.bindings.length > 0`
unfoldable pub with_bindings :
    AgentRouter → Option (List AgentBinding) → Result PatternError AgentRouter
with_bindings r none = ok r
with_bindings r (some []) = ok r
with_bindings r (some (b ∷ bindings)) = do
  resolver ← update_bindings Bindings.init (b ∷ bindings)
  ok (set_binding_resolver r resolver)

-- The constructor, which throws the error of a pattern of the bindings that does not compile.
unfoldable pub init : GatewayConfig → Option PairingGuard → Result PatternError TemplarGateway
unfolding with_bindings
init config guard = do
  router ← with_bindings (new_router config) config.bindings
  ok (new_gateway config guard router)

pub send_to_node : TemplarGateway → String → Frame → Sent
send_to_node g node_id frame = elim (present (lookup node_id g.node_to_connection)) [
  | none ↦ []
  | some connection_id ↦ (connection_id, frame) ∷ []
]

abbrev pub forget_conversations : String → Option ConversationStore → Option ConversationStore
forget_conversations node_id none = none
forget_conversations node_id (some store) = some (Conversations.remove_node store node_id).0

abbrev pub drop_connection : Option String → Map String → Map String
drop_connection none m = m
drop_connection (some connection_id) m = erase connection_id m

-- The guards of the source test what `destroySession` and `deregister` test again.
pub cleanup_node : TemplarGateway → String → TemplarGateway
cleanup_node g node_id =
    let router' = remove_dispatcher g.router node_id in
    record g {
      router = record router' {
        conversation_store = forget_conversations node_id router'.conversation_store;
      };
      delivery_tracker = Delivery.remove_node g.delivery_tracker node_id;
      session_manager = left g.session_manager (destroy_session g.session_manager node_id);
      registry = after g.registry (deregister g.registry node_id);
      connection_to_node =
          drop_connection (present (lookup node_id g.node_to_connection)) g.connection_to_node;
      node_to_connection = erase node_id g.node_to_connection;
    }

-- `map.delete(k)` for a key that is there and is not the one to keep.
abbrev pub drop_stale : Option String → String → Map String → Map String
drop_stale none kept m = m
drop_stale (some k) kept m = if str_eq k kept then m else erase k m

pub clean_stale : TemplarGateway → String → String → TemplarGateway
clean_stale g connection_id node_id =
    let nodes =
      drop_stale (present (lookup connection_id g.connection_to_node)) node_id
        g.node_to_connection in
    record g {
      node_to_connection = nodes;
      connection_to_node =
          drop_stale (present (lookup node_id nodes)) connection_id g.connection_to_node;
    }

abbrev pub failed : String → Sent
failed connection_id = (connection_id, error_frame "Registration failed" 409) ∷ []

-- The part of `completeNodeRegister` after the session is created; `none` is the buffer's RangeError.
pub add_dispatcher :
    TemplarGateway → String → String → SessionInfo → Option MessageBuffer → TemplarGateway × Sent
add_dispatcher g connection_id node_id session none = (g, failed connection_id)
add_dispatcher g connection_id node_id session (some dispatcher) = (
  record g { router = set_dispatcher g.router node_id dispatcher },
  (connection_id, register_ack node_id session.session_id) ∷ [],
)

pub add_session :
    TemplarGateway
    → String
    → String
    → Outcome (SessionManager × SessionInfo)
    → TemplarGateway × Sent
unfolding add_dispatcher
add_session g connection_id node_id (err e) = (g, failed connection_id)
add_session g connection_id node_id (ok (m, session)) =
    add_dispatcher (record g { session_manager = m }) connection_id node_id session
      (Buffer.init g.lane_capacity)

-- The part of `completeNodeRegister` after the call of `register`.
pub add_node :
    TemplarGateway
    → String
    → String
    → (uuid : String) (now : ℕ) → Outcome NodeRegistry
    → TemplarGateway × Sent
unfolding add_session
add_node g connection_id node_id uuid now (err e) = (g, failed connection_id)
add_node g connection_id node_id uuid now (ok registry) =
    add_session
      (record g {
        registry = registry;
        connection_to_node = insert connection_id node_id g.connection_to_node;
        node_to_connection = insert node_id connection_id g.node_to_connection;
      })
      connection_id node_id (create_session g.session_manager uuid now node_id none)

pub complete_node_register :
    TemplarGateway
    → String
    → String
    → NodeCapabilities
    → (uuid : String) (now : ℕ) → TemplarGateway × Sent
unfolding clean_stale add_node
complete_node_register g connection_id node_id capabilities uuid now =
    add_node (clean_stale g connection_id node_id) connection_id node_id uuid now
      (Registry.register g.registry node_id capabilities now)

-- Whether a node has an owner other than this connection.
abbrev pub foreign : Option String → String → Bool
foreign none connection_id = false
foreign (some owner) connection_id = not (str_eq owner connection_id)

pub handle_node_deregister : TemplarGateway → String → String → TemplarGateway × Sent
unfolding cleanup_node
handle_node_deregister g connection_id node_id =
    if foreign (present (lookup node_id g.node_to_connection)) connection_id
    then (g, (connection_id, error_frame "Unauthorized deregistration" 403) ∷ [])
    else (cleanup_node g node_id, [])

-- The gateway's handler of transitions. It runs at the end of the session's event, where the source
-- runs it before the session of a disconnected node is erased, which the cleanup does as well.
pub on_notices : TemplarGateway → List Notice → TemplarGateway × Sent
unfolding cleanup_node send_to_node
on_notices g [] = (g, [])
on_notices g (n ∷ notices) =
    let g' =
      if n.result.valid
      then if is_disconnected n.result.state then cleanup_node g n.node_id else g
      else g in
    let frames =
      if n.result.valid then send_to_node g n.node_id (session_update n.session) else [] in
    let (g'', rest) = on_notices g' notices in (g'', frames ++ rest)

pub after_event :
    TemplarGateway
    → Outcome (SessionManager × TransitionResult × List Notice)
    → Outcome (TemplarGateway × Sent)
unfolding on_notices
after_event g (err e) = err e
after_event g (ok (m, result, notices)) = ok (on_notices (record g { session_manager = m }) notices)

-- A call of the session manager's `handleEvent`, with the handler that the gateway put there.
pub session_event : TemplarGateway → String → SessionEvent → ℕ → Outcome (TemplarGateway × Sent)
unfolding after_event
session_event g node_id event now = after_event g (handle_event g.session_manager node_id now event)
