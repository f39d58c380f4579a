-- ===== src/Gateway/Wiring/Tests.antt =====
-- Runs of packages/gateway/src/gateway.ts with two nodes.
use templar.Prelude.{
  ◌<◌, true, false, none, some, Option, List, [], ◌∷◌, String, ◌≡◌, ◌≢◌, refl, arith, str_eq,
  eq_iff,
}
use templar.Prelude.Maps.{lookup, has, insert, erase}
use templar.Prelude.Results.{ok}
use templar.Gateway.Fifo as Fifo
use templar.Gateway.Lanes.{Lane, LaneMessage, steer}
use templar.Prelude.Text.{split, push_char, starts_with, index_of, count}
use templar.Gateway.Bindings.{
  prefix, compile_pattern, match_field, AgentBinding, BindingResolver, compile_field,
  compile_binding, compile_bindings, update_bindings, first_match, matches, resolve,
}
use templar.Gateway.Router.Meaning.{Names, IsMeantFor, by_agent}
use templar.Gateway.Registry.{
  NodeCapabilities, register, add_agents, new_node, empty, resolve_agent,
}
use templar.Gateway.SessionProtocol.{idle_timeout}
use templar.Gateway.Session.{
  create_session, new_session, start_idle_timer, clear_idle_timer, on_transition,
}
use templar.Gateway.Session as Session
use templar.Gateway.Buffer as Buffer
use templar.Gateway.Buffer.{MessageBuffer, dispatch, zero_counts}
use templar.Gateway.Delivery.{or_empty}
use templar.Gateway.Keys.{per_channel_peer, present}
use templar.Gateway.Router.{
  Routed, agent_of, bind, dispatch_found, dispatch_to_node, node_of_channel, route,
  set_agent_node_resolver, set_conversation_scope, set_conversation_store, set_dispatcher,
  set_binding_resolver,
}
use templar.Gateway.Router as Router
use templar.Gateway.Router.Dispatch.{target, target_by, handed, route-target}
use templar.Gateway.Wiring.{
  TemplarGateway, GatewayConfig, error_frame, failed, init, new_gateway, new_router, with_bindings,
  clean_stale, add_node, add_session, add_dispatcher, complete_node_register,
}
use templar.Gateway.Wiring.Messages.{handle_lane_message}
use templar.Gateway.Wiring.Steps.{
  Call, registers, binds, sends, disconnects, session, dies, step, run,
}
use templar.Gateway.Wiring.Run.{IsWired}
use templar.Gateway.Wiring.Reach.{gateway_run-IsWired}
use templar.Gateway.Wiring.Routes.{DeliversTo, gateway_run-DeliversTo}
use templar.Gateway.Wiring.Hazards.{
  complete_node_register-restored, complete_node_register-taken, handle_lane_message-sender,
}

-- The agent "ada" has the messages of the channels of WhatsApp.
abbrev binding : AgentBinding
binding = record {
  agent_id = "ada";
  match = record { channel = some "wa-*"; account_id = none; peer_id = none };
}

abbrev resolver : BindingResolver
resolver = record {
  compiled =
      record {
        agent_id = "ada";
        matchers = record { channel = some (prefix "wa-"); account_id = none; peer_id = none };
      }
      ∷ [];
}

abbrev config : GatewayConfig
config = record {
  sessions = record { session_timeout = 10; suspend_timeout = 20 };
  conversations = record { max_conversations = 4; conversation_ttl = 100 };
  default_conversation_scope = per_channel_peer;
  lane_capacity = 2;
  bindings = some (binding ∷ []);
}

abbrev serves : NodeCapabilities
serves = record {
  agent_types = [];
  agent_ids = some ("ada" ∷ []);
  tools = [];
  max_concurrency = 1;
  channels = [];
}

abbrev no_code : String → Option String
no_code s = none

abbrev no_text : LaneMessage → Option String
no_text m = none

abbrev message : LaneMessage
message = record {
  id = "m1";
  lane = Lane.interrupt;
  channel_id = "general";
  payload = "";
  timestamp = 0;
  routing_context = none;
}

abbrev start : List Call
start = registers "c1" "n1" serves "u1" 0 ∷ binds "general" "n1" ∷ []

-- A second node sends to the first, which times out and whose connection ends.
abbrev calls : List Call
calls =
    registers "c1" "n1" serves "u1" 0
    ∷ binds "general" "n1"
    ∷ registers "c2" "n2" serves "u2" 1
    ∷ sends "c2" message 2
    ∷ session "n1" idle_timeout 12
    ∷ disconnects "c1" 13
    ∷ dies "n2"
    ∷ []

room : 0 < 2
room = omega arith

ne_of_test : (a b : String) → str_eq a b ≡ false → a ≢ b
ne_of_test a b h = ground (arith, eq_iff a b)

abbrev new : TemplarGateway
new = new_gateway config none (set_binding_resolver (new_router config) resolver)

made : init config none ≡ ok new
unfolding init with_bindings set_binding_resolver update_bindings compile_bindings compile_binding
    compile_field compile_pattern split push_char index_of count
made = refl

gateway_run-IsWired_example : IsWired (run no_code no_text new calls)
gateway_run-IsWired_example = gateway_run-IsWired no_code no_text config none new calls room made

-- A message that waits in a buffer.
abbrev question : LaneMessage
question = record message { lane = Lane.queued steer; channel_id = "wa-1" }

question-ada : Names (run no_code no_text new start).router.binding_resolver question "ada"
unfolding run step complete_node_register clean_stale add_node add_session add_dispatcher register
    add_agents create_session start_idle_timer clear_idle_timer on_transition Buffer.init Fifo.init
    bind lookup has insert erase set_agent_node_resolver set_conversation_scope
    set_conversation_store set_dispatcher set_binding_resolver resolve first_match matches
    match_field starts_with
question-ada = record {
  resolver = resolver;
  installed = refl;
  resolved = refl;
  named = ne_of_test "ada" "" refl;
}

question-n1 :
    IsMeantFor
      (run no_code no_text new start).registry
      (run no_code no_text new start).router
      question
      "n1"
unfolding run step complete_node_register clean_stale add_node add_session add_dispatcher register
    add_agents create_session start_idle_timer clear_idle_timer on_transition Buffer.init Fifo.init
    bind lookup has insert erase set_agent_node_resolver set_conversation_scope
    set_conversation_store set_dispatcher set_binding_resolver
question-n1 = by_agent "ada" resolve_agent question-ada refl refl (ne_of_test "n1" "" refl)

gateway_run-DeliversTo_example : DeliversTo (run no_code no_text new start) question "n1"
gateway_run-DeliversTo_example =
    gateway_run-DeliversTo no_code no_text config none new start question "n1" room made question-n1

-- A gateway whose session of "n1" came back from a snapshot.
abbrev restored : TemplarGateway
restored = record (new_gateway config none Router.init) {
  session_manager = record (Session.init config.sessions) {
    sessions = ("n1", new_session "u0" 0 "n1" none) ∷ [];
  };
}

n1-unknown : has "n1" restored.registry.nodes ≡ false
unfolding has
n1-unknown = refl

n1-restored : has "n1" restored.session_manager.sessions ≡ true
unfolding has
n1-restored = refl

complete_node_register-restored_example :
    ((complete_node_register restored "c1" "n1" serves "u1" 5).1 ≡ failed "c1")
    × (has "n1" (complete_node_register restored "c1" "n1" serves "u1" 5).0.registry.nodes ≡ true)
    × ((complete_node_register restored "c1" "n1" serves "u1" 5).0.router ≡ restored.router)
complete_node_register-restored_example =
    complete_node_register-restored restored "c1" "n1" "u1" serves 5 n1-unknown n1-restored

abbrev buffer : MessageBuffer
buffer = record {
  queue = record { buffer = none ∷ none ∷ []; head = 0; tail = 0; count = 0; capacity = 2 };
  seq = 0;
  counts = zero_counts;
}

-- Both nodes are registered and connected, and the channel is the first one's.
abbrev two_nodes : TemplarGateway
two_nodes = record (new_gateway config none Router.init) {
  registry = record empty {
    nodes = ("n1", new_node "n1" serves 0) ∷ ("n2", new_node "n2" serves 0) ∷ [];
  };
  router = record Router.init {
    channel_bindings = ("general", "n1") ∷ [];
    dispatchers = ("n1", buffer) ∷ ("n2", buffer) ∷ [];
  };
  pairing_guard = none;
  connection_to_node = ("c1", "n1") ∷ ("c2", "n2") ∷ [];
  node_to_connection = ("n1", "c1") ∷ ("n2", "c2") ∷ [];
}

c1-owns : lookup "n1" two_nodes.node_to_connection ≡ some "c1"
unfolding lookup
c1-owns = refl

n1-known : has "n1" two_nodes.registry.nodes ≡ true
unfolding has
n1-known = refl

complete_node_register-taken_example :
    ((complete_node_register two_nodes "c2" "n1" serves "u1" 5).1 ≡ failed "c2")
    × ((complete_node_register two_nodes "c2" "n1" serves "u1" 5).0.registry ≡ two_nodes.registry)
    × ((handle_lane_message no_code no_text
          (complete_node_register two_nodes "c2" "n1" serves "u1" 5).0
          "c1"
          message
          5).1
        ≡ ("c1", error_frame "Not registered" 403) ∷ [])
complete_node_register-taken_example =
    complete_node_register-taken no_code no_text two_nodes "c1" "c2" "n1" "u1" serves message 5
      (ne_of_test "c1" "c2" refl) (ne_of_test "c1" "" refl) c1-owns n1-known

abbrev routed : Routed
routed = record {
  router = handed two_nodes.router "n1" message buffer;
  node_id = "n1";
  events = (dispatch buffer message).1;
}

route_general : route two_nodes.registry two_nodes.router message ≡ ok routed
unfolding lookup insert agent_of node_of_channel dispatch_to_node dispatch_found target target_by
route_general = route-target two_nodes.registry two_nodes.router message

c2-node : present (lookup "c2" two_nodes.connection_to_node) ≡ some "n2"
unfolding lookup
c2-node = refl

handle_lane_message-sender_example :
    (lookup "n1"
        (handle_lane_message no_code no_text two_nodes "c2" message 9).0.delivery_tracker.pending
      ≡ lookup "n1" two_nodes.delivery_tracker.pending)
    × (has "m1" (
          or_empty (
            lookup "n2"
              (handle_lane_message no_code no_text two_nodes "c2" message
                9).0.delivery_tracker.pending))
        ≡ true)
handle_lane_message-sender_example =
    handle_lane_message-sender no_code no_text two_nodes "c2" "n2" message 9 routed c2-node refl
      route_general (ne_of_test "n2" "n1" refl)
