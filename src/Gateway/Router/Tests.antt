-- ===== src/Gateway/Router/Tests.antt =====
-- Runs of packages/gateway/src/router.ts with one node.
use templar.Prelude.{none, some, [], ◌∷◌, ◌≡◌, refl}
use templar.Prelude.Maps.{lookup, has, insert, erase, map_filter, Unique}
use templar.Prelude.Results.{ok, err}
use templar.Gateway.Errors.{node_not_found}
use templar.Gateway.Lanes.{Lane, LaneMessage, MessageType}
use templar.Gateway.Registry as Registry
use templar.Gateway.Buffer.{MessageBuffer, dispatch, zero_counts}
use templar.Gateway.Router.{
  AgentRouter, Routed, bind, dispatch_to_node, dispatch_found, init, no_binding, node_of_channel,
  remove_dispatcher, resolve_and_dispatch_channel, agent_of, route, route_by,
}
use templar.Gateway.Router.Dispatch.{handed}
use templar.Gateway.Router.Meaning.{IsMeantFor, Delivers, route-Delivers}

abbrev buffer : MessageBuffer
buffer = record {
  queue = record { buffer = none ∷ none ∷ []; head = 0; tail = 0; count = 0; capacity = 2 };
  seq = 0;
  counts = zero_counts;
}

abbrev message : LaneMessage
message = record {
  id = "m1";
  lane = Lane.interrupt;
  channel_id = "general";
  payload = "";
  timestamp = 0;
  routing_context = some (record {
    peer_id = some "ann";
    account_id = none;
    group_id = none;
    message_type = some MessageType.dm;
  });
}

-- Two channels, of two nodes, of which "n" has a buffer.
abbrev router : AgentRouter
router = record init {
  channel_bindings = ("general", "n") ∷ ("other", "m") ∷ [];
  dispatchers = ("n", buffer) ∷ ("m", buffer) ∷ [];
}

abbrev routed : Routed
routed = record {
  router = handed router "n" message buffer;
  node_id = "n";
  events = (dispatch buffer message).1;
}

route_general : route Registry.empty router message ≡ ok routed
unfolding route route_by agent_of resolve_and_dispatch_channel node_of_channel dispatch_to_node
    dispatch_found lookup insert
route_general = refl

route_unbound :
    route Registry.empty router (record message { channel_id = "lost" }) ≡ err (no_binding "lost")
unfolding route route_by agent_of resolve_and_dispatch_channel node_of_channel dispatch_to_node
    dispatch_found lookup insert
route_unbound = refl

bind_unknown : bind Registry.empty router "general" "x" ≡ err (node_not_found "x")
unfolding bind has
bind_unknown = refl

route-Delivers_example :
    IsMeantFor Registry.empty router message "n" × Delivers router message routed
route-Delivers_example = route-Delivers Registry.empty router message routed route_general

abbrev narrowed : Routed
narrowed = record {
  router = handed (remove_dispatcher router "m") "n" message buffer;
  node_id = "n";
  events = (dispatch buffer message).1;
}

route-narrowed : route Registry.empty (remove_dispatcher router "m") message ≡ ok narrowed
unfolding route route_by agent_of resolve_and_dispatch_channel node_of_channel dispatch_to_node
    dispatch_found lookup insert remove_dispatcher erase map_filter
route-narrowed = refl

router-Unique : Unique router.channel_bindings
unfolding Unique lookup
router-Unique = (refl, (refl, tt))
