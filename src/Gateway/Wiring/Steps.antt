-- ===== src/Gateway/Wiring/Steps.antt =====
-- packages/gateway/src/gateway.ts: sequences of frames, disconnects, timers and calls.
use templar.Prelude.{ℕ, Option, List, [], ◌∷◌, String}
use templar.Gateway.Errors.{left}
use templar.Gateway.Lanes.{LaneMessage}
use templar.Gateway.Registry.{NodeCapabilities}
use templar.Gateway.SessionProtocol.{SessionEvent}
use templar.Gateway.Router.{bind, unbind}
use templar.Gateway.Wiring.{
  TemplarGateway, complete_node_register, handle_node_deregister, cleanup_node, session_event,
}
use templar.Gateway.Wiring.Messages.{
  handle_disconnect, handle_pong, handle_lane_message, handle_lane_message_ack, settled,
}

-- `dies` is the health monitor's report of a dead node, and `session` an event of a session timer.
pub data Call : Type 0 where
  registers : (connection_id node_id : String) → NodeCapabilities → (uuid : String) (now : ℕ) → Call
  deregisters : (connection_id node_id : String) → Call
  disconnects : (connection_id : String) (now : ℕ) → Call
  pongs : (connection_id : String) (now : ℕ) → Call
  sends : (connection_id : String) → LaneMessage → (now : ℕ) → Call
  acks : (connection_id message_id : String) → Call
  binds : (channel_id node_id : String) → Call
  unbinds : (channel_id : String) → Call
  dies : (node_id : String) → Call
  session : (node_id : String) → SessionEvent → (now : ℕ) → Call

module _ (extract : String → Option String) (text : LaneMessage → Option String) where
  unfoldable pub step : TemplarGateway → Call → TemplarGateway
  step g (registers connection_id node_id capabilities uuid now) =
      (complete_node_register g connection_id node_id capabilities uuid now).0
  step g (deregisters connection_id node_id) = (handle_node_deregister g connection_id node_id).0
  step g (disconnects connection_id now) = (handle_disconnect g connection_id now).0
  step g (pongs connection_id now) = (handle_pong g connection_id now).0
  step g (sends connection_id message now) =
      (handle_lane_message extract text g connection_id message now).0
  step g (acks connection_id message_id) = handle_lane_message_ack g connection_id message_id
  step g (binds channel_id node_id) = record g {
    router = left g.router (bind g.registry g.router channel_id node_id);
  }
  step g (unbinds channel_id) = record g { router = unbind g.router channel_id }
  step g (dies node_id) = cleanup_node g node_id
  step g (session node_id event now) = (settled g (session_event g node_id event now)).0

  unfoldable pub run : TemplarGateway → List Call → TemplarGateway
  run g [] = g
  run g (c ∷ calls) = run (step g c) calls
