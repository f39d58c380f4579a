-- ===== src/Gateway/Wiring/Hazards.antt =====
-- packages/gateway/src/gateway.ts: registrations and messages that leave the gateway's parts at odds.
use templar.Prelude.{
  ℕ, true, false, Option, none, some, [], ◌∷◌, String, eq_iff, eq_refl, leb, if◌then◌else◌, ◌≡◌,
  ◌≢◌, refl, sym, ap, subst, ◌∙◌, arith,
}
use templar.Prelude.Maps.{
  Map, lookup, has, insert, lookup-erase, lookup-erase_self, lookup-insert_ne, lookup-insert_self,
  size,
}
use templar.Prelude.Domains.{has-insert}
use templar.Prelude.Results.{ok}
use templar.Gateway.Lanes.{LaneMessage}
use templar.Gateway.Registry.{NodeRegistry, NodeCapabilities}
use templar.Gateway.Registry.Domain.{register-known, register-unknown}
use templar.Gateway.Session.Domain.{create_session-known}
use templar.Gateway.Delivery.{
  DeliveryTracker, PendingMessage, evict_oldest, or_empty, track, track_in,
}
use templar.Gateway.Keys.{present}
use templar.Gateway.Router.{Routed, route}
use templar.Gateway.Wiring.{
  TemplarGateway, error_frame, failed, drop_stale, clean_stale, add_node, add_session,
  complete_node_register,
}
use templar.Gateway.Wiring.Messages.{
  check_pairing, deliver, direct_peer, finish_lane_message, lane_message_from, handle_lane_message,
}

-- A node that has a session but is not registered, as after its session is restored from a snapshot,
-- cannot register: the reply is the error frame, and yet the node is then registered, while the buffers
-- stay as they were.
pub complete_node_register-restored :
    (g : TemplarGateway) (connection_id node_id uuid : String) (capabilities : NodeCapabilities)
    (now : ℕ)
    → has node_id g.registry.nodes ≡ false
    → has node_id g.session_manager.sessions ≡ true
    → ((complete_node_register g connection_id node_id capabilities uuid now).1
        ≡ failed connection_id)
      × (has node_id
            (complete_node_register g connection_id node_id capabilities uuid now).0.registry.nodes
          ≡ true)
      × ((complete_node_register g connection_id node_id capabilities uuid now).0.router ≡ g.router)
unfolding complete_node_register add_node add_session clean_stale
complete_node_register-restored g connection_id node_id uuid capabilities now unknown restored =
    let (nodes, registered, known) = register-unknown g.registry node_id capabilities now unknown in
    let refused = create_session-known g.session_manager uuid now node_id none restored in
    subst
      (λ o.
        ((add_node (clean_stale g connection_id node_id) connection_id node_id uuid now o).1
          ≡ failed connection_id)
        × (has node_id
              (add_node (clean_stale g connection_id node_id) connection_id node_id uuid now
                o).0.registry.nodes
            ≡ true)
        × ((add_node (clean_stale g connection_id node_id) connection_id node_id uuid now
              o).0.router
            ≡ g.router))
      (sym registered)
      (subst
        (λ o.
          ((add_session (restored_into nodes) connection_id node_id o).1 ≡ failed connection_id)
          × (has node_id
                (add_session (restored_into nodes) connection_id node_id o).0.registry.nodes
              ≡ true)
          × ((add_session (restored_into nodes) connection_id node_id o).0.router ≡ g.router))
        (sym refused) (refl, known, refl))
  where
    restored_into : NodeRegistry → TemplarGateway
    restored_into nodes =
        let g' = clean_stale g connection_id node_id in
        record g' {
          registry = nodes;
          connection_to_node = insert connection_id node_id g'.connection_to_node;
          node_to_connection = insert node_id connection_id g'.node_to_connection;
        }

lookup-drop_stale :
    (o : Option String) (kept : String) (m : Map String)
    → lookup kept (drop_stale o kept m) ≡ lookup kept m
lookup-drop_stale none kept m = refl
lookup-drop_stale (some k) kept m = ground (arith, lookup-erase k kept m, eq_iff k kept)

drop_stale-other :
    (k kept : String) (m : Map String)
    → k ≢ kept
    → k ≢ ""
    → lookup k (drop_stale (present (some k)) kept m) ≡ none
drop_stale-other k kept m other named =
    ground (arith, eq_iff k kept, eq_iff k "", lookup-erase_self k m)

-- The owner of a node that another connection registers is forgotten.
clean_stale-owner :
    (g : TemplarGateway) (owner connection_id node_id : String)
    → owner ≢ connection_id
    → owner ≢ ""
    → lookup node_id g.node_to_connection ≡ some owner
    → lookup owner (clean_stale g connection_id node_id).connection_to_node ≡ none
unfolding clean_stale
clean_stale-owner g owner connection_id node_id other named known =
    ap (λ o. lookup owner (drop_stale (present o) connection_id g.connection_to_node))
      (lookup-drop_stale (present (lookup connection_id g.connection_to_node)) node_id
          g.node_to_connection
        ∙ known)
    ∙ drop_stale-other owner connection_id g.connection_to_node other named

-- A connection that tries to register a node that another connection serves is refused with the frame of
-- a failed registration, but that other connection loses its node: its messages are answered with "Not
-- registered", although the registry is as it was.
pub complete_node_register-taken :
    (extract : String → Option String) (text : LaneMessage → Option String) (g : TemplarGateway)
    (owner connection_id node_id uuid : String) (capabilities : NodeCapabilities)
    (message : LaneMessage) (now : ℕ)
    → owner ≢ connection_id
    → owner ≢ ""
    → lookup node_id g.node_to_connection ≡ some owner
    → has node_id g.registry.nodes ≡ true
    → ((complete_node_register g connection_id node_id capabilities uuid now).1
        ≡ failed connection_id)
      × ((complete_node_register g connection_id node_id capabilities uuid now).0.registry
          ≡ g.registry)
      × ((handle_lane_message extract text
            (complete_node_register g connection_id node_id capabilities uuid now).0
            owner
            message
            now).1
          ≡ (owner, error_frame "Not registered" 403) ∷ [])
unfolding complete_node_register add_node clean_stale handle_lane_message lane_message_from
complete_node_register-taken extract text g owner connection_id node_id uuid capabilities message
      now other named known registered =
    let g' = clean_stale g connection_id node_id in
    subst
      (λ o.
        ((add_node g' connection_id node_id uuid now o).1 ≡ failed connection_id)
        × ((add_node g' connection_id node_id uuid now o).0.registry ≡ g.registry)
        × ((handle_lane_message extract text (add_node g' connection_id node_id uuid now o).0 owner
              message now).1
            ≡ (owner, error_frame "Not registered" 403) ∷ []))
      (sym (register-known g.registry node_id capabilities now registered))
      (
        refl,
        refl,
        ap (λ o. (lane_message_from extract text g' owner message now (present o)).1)
            (clean_stale-owner g owner connection_id node_id other named known),
      )

abbrev Kept : TemplarGateway → Routed → String → LaneMessage → DeliveryTracker → Type 0
Kept g q sender message t =
    (lookup q.node_id t.pending ≡ lookup q.node_id g.delivery_tracker.pending)
    × (has message.id (or_empty (lookup sender t.pending)) ≡ true)

-- Without a pairing guard, a message that a node sends and that is routed to another node is kept as
-- pending for the sender, and the pending messages of the node that it is routed to stay as they were.
pub handle_lane_message-sender :
    (extract : String → Option String) (text : LaneMessage → Option String) (g : TemplarGateway)
    (connection_id sender : String) (message : LaneMessage) (now : ℕ) (q : Routed)
    → present (lookup connection_id g.connection_to_node) ≡ some sender
    → g.pairing_guard ≡ none
    → route g.registry g.router message ≡ ok q
    → sender ≢ q.node_id
    → (lookup q.node_id
          (handle_lane_message extract text g connection_id message now).0.delivery_tracker.pending
        ≡ lookup q.node_id g.delivery_tracker.pending)
      × (has message.id (
            or_empty (
              lookup sender
                (handle_lane_message extract text g connection_id message
                  now).0.delivery_tracker.pending))
          ≡ true)
unfolding handle_lane_message lane_message_from check_pairing deliver finish_lane_message track
    track_in
handle_lane_message-sender extract text g connection_id sender message now q from free routed
      other =
    subst (Kept g q sender message) (sym arrives) (
      lookup-insert_ne sender q.node_id pending_after g.delivery_tracker.pending other,
      subst (λ o. has message.id (or_empty o) ≡ true)
          (sym (lookup-insert_self sender pending_after g.delivery_tracker.pending))
          (ground (arith, has-insert message.id message.id entry room, eq_refl message.id)),
    )
  where
    entry : PendingMessage
    entry = record { message_id = message.id; node_id = sender; sent_at = now; message = message }

    room : Map PendingMessage
    room =
        let m = or_empty (lookup sender g.delivery_tracker.pending) in
        if leb g.delivery_tracker.max_pending (size m) then evict_oldest m else m

    pending_after : Map PendingMessage
    pending_after = insert message.id entry room

    arrives :
        (handle_lane_message extract text g connection_id message now).0.delivery_tracker
        ≡ track g.delivery_tracker sender message now
    arrives =
        ap (λ o. (lane_message_from extract text g connection_id message now o).0.delivery_tracker)
          from
        ∙ ap
            (λ o.
              let checked =
                check_pairing extract text g sender message now o
                  (direct_peer message.routing_context) in
              (deliver checked.0 connection_id sender message now checked.1).0.delivery_tracker)
            free
        ∙ ap (λ o. (finish_lane_message g connection_id sender message now o).0.delivery_tracker)
            routed
