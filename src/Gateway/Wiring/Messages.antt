-- ===== src/Gateway/Wiring/Messages.antt =====
-- packages/gateway/src/gateway.ts: disconnects, pongs, lane messages and their acknowledgements. The
-- payload of a message is a text in the model; `text` gives the payload where the source finds a string.
use templar.Prelude.{ℕ, Option, none, some, List, [], ◌∷◌, String, if◌then◌else◌}
use templar.Prelude.Maps.{lookup, has, erase}
use templar.Prelude.Results.{ok, err}
use templar.Gateway.Errors.{Outcome}
use templar.Gateway.Lanes.{LaneMessage, MessageRoutingContext, MessageType}
use templar.Gateway.Buffer.{Event}
use templar.Gateway.Registry.{mark_alive}
use templar.Gateway.SessionProtocol.{disconnect, heartbeat}
use templar.Gateway.Delivery as Delivery
use templar.Gateway.Keys.{present}
use templar.Gateway.Router.{Routed, route}
use templar.Gateway.Wiring.{TemplarGateway, Frame, error_frame, message_ack, Sent, session_event}
use templar.Pairing.Guard.{PairingGuard, check_sender}
use templar.Pairing.Types.{
  PairingCheckResult, approved, pending, paired, rate_limited, invalid_code, expired_code, bypass,
}

abbrev pub settled : TemplarGateway → Outcome (TemplarGateway × Sent) → TemplarGateway × Sent
settled g (ok r) = r
settled g (err e) = (g, [])

unfoldable pub disconnect_node : TemplarGateway → String → ℕ → Option String → TemplarGateway × Sent
unfolding session_event
disconnect_node g connection_id now none = (g, [])
disconnect_node g connection_id now (some node_id) =
    let (g', sent) =
      if has node_id g.session_manager.sessions
      then settled g (session_event g node_id disconnect now)
      else (g, []) in
    (
      record g' {
        connection_to_node = erase connection_id g'.connection_to_node;
        node_to_connection = erase node_id g'.node_to_connection;
      },
      sent,
    )

unfoldable pub handle_disconnect : TemplarGateway → String → ℕ → TemplarGateway × Sent
unfolding disconnect_node
handle_disconnect g connection_id now =
    disconnect_node g connection_id now (present (lookup connection_id g.connection_to_node))

-- What `handleEvent` throws leaves the frame handler, after the node is marked.
unfoldable pub pong_node : TemplarGateway → ℕ → Option String → TemplarGateway × Sent
unfolding session_event
pong_node g now none = (g, [])
pong_node g now (some node_id) =
    let g' : TemplarGateway = record g { registry = mark_alive g.registry node_id now } in
    settled g' (session_event g' node_id heartbeat now)

-- The frame "heartbeat.pong".
unfoldable pub handle_pong : TemplarGateway → String → ℕ → TemplarGateway × Sent
unfolding pong_node
handle_pong g connection_id now =
    pong_node g now (present (lookup connection_id g.connection_to_node))

-- `sendPairingResponse`, for the results that do not let a message pass.
abbrev pub pairing_frame : PairingCheckResult → Option Frame
pairing_frame approved = none
pairing_frame (paired peer) = none
pairing_frame bypass = none
pairing_frame pending = some (error_frame "Pairing required" 401)
pairing_frame invalid_code = some (error_frame "Invalid pairing code" 401)
pairing_frame expired_code = some (error_frame "Pairing code expired" 410)
pairing_frame rate_limited = some (error_frame "Rate limited" 429)

-- The peer of a direct message, if it is not empty.
abbrev pub direct_peer : Option MessageRoutingContext → Option String
direct_peer none = none
direct_peer (some context) = elim context.message_type [
  | none ↦ none
  | some MessageType.dm ↦ present context.peer_id
  | some MessageType.group ↦ none
]

-- Routing, tracking and the acknowledgement, or the error frame of what `route` throws.
unfoldable pub finish_lane_message :
    TemplarGateway
    → String
    → String
    → LaneMessage
    → ℕ
    → Outcome Routed
    → TemplarGateway × Sent × List Event
finish_lane_message g connection_id node_id message now (err e) =
    (g, (connection_id, error_frame "Message routing failed" 500) ∷ [], [])
finish_lane_message g connection_id node_id message now (ok routed) = (
  record g {
    router = routed.router;
    delivery_tracker = Delivery.track g.delivery_tracker node_id message now;
  },
  (connection_id, message_ack message.id) ∷ [],
  routed.events,
)

unfoldable pub deliver :
    TemplarGateway
    → String
    → String
    → LaneMessage
    → ℕ
    → Option Frame
    → TemplarGateway × Sent × List Event
unfolding finish_lane_message
deliver g connection_id node_id message now (some refusal) = (g, (connection_id, refusal) ∷ [], [])
deliver g connection_id node_id message now none =
    finish_lane_message g connection_id node_id message now (route g.registry g.router message)

module _ (extract : String → Option String) (text : LaneMessage → Option String) where
  -- The gateway after the pairing check, and the frame of a refusal.
  unfoldable pub check_pairing :
      TemplarGateway
      → String
      → LaneMessage
      → ℕ
      → Option PairingGuard
      → Option String
      → TemplarGateway × Option Frame
  check_pairing g node_id message now none peer = (g, none)
  check_pairing g node_id message now (some guard) none = (g, none)
  check_pairing g node_id message now (some guard) (some peer_id) =
      let (guard', result) =
        check_sender extract guard node_id message.channel_id peer_id (text message) now in
      (record g { pairing_guard = some guard' }, pairing_frame result)

  unfoldable pub lane_message_from :
      TemplarGateway → String → LaneMessage → ℕ → Option String → TemplarGateway × Sent × List Event
  unfolding check_pairing deliver
  lane_message_from g connection_id message now none =
      (g, (connection_id, error_frame "Not registered" 403) ∷ [], [])
  lane_message_from g connection_id message now (some node_id) =
      let (g', refusal) =
        check_pairing g node_id message now g.pairing_guard (direct_peer message.routing_context) in
      deliver g' connection_id node_id message now refusal

  unfoldable pub handle_lane_message :
      TemplarGateway → String → LaneMessage → ℕ → TemplarGateway × Sent × List Event
  unfolding lane_message_from
  handle_lane_message g connection_id message now =
      lane_message_from g connection_id message now
        (present (lookup connection_id g.connection_to_node))

unfoldable pub ack_from : TemplarGateway → String → Option String → TemplarGateway
ack_from g message_id none = g
ack_from g message_id (some node_id) = record g {
  delivery_tracker = (Delivery.ack g.delivery_tracker node_id message_id).0;
}

unfoldable pub handle_lane_message_ack : TemplarGateway → String → String → TemplarGateway
unfolding ack_from
handle_lane_message_ack g connection_id message_id =
    ack_from g message_id (present (lookup connection_id g.connection_to_node))
