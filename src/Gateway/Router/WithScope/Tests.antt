-- ===== src/Gateway/Router/WithScope/Tests.antt =====
-- A run of `routeWithScope` of packages/gateway/src/router.ts.
use templar.Prelude.{false, none, some, [], ◌∷◌, ◌≡◌, refl}
use templar.Prelude.Maps.{lookup, insert}
use templar.Prelude.Text.{includes}
use templar.Prelude.Results.{ok}
use templar.Gateway.Lanes.{Lane, LaneMessage, MessageType}
use templar.Gateway.Registry as Registry
use templar.Gateway.Buffer.{MessageBuffer, dispatch, zero_counts}
use templar.Gateway.Conversations.{ConversationStore, ConversationBinding}
use templar.Gateway.Conversations as Conversations
use templar.Gateway.Keys.{
  per_channel_peer, scoped, bad_id, resolve_conversation_key, key_of_type, dm_key,
}
use templar.Gateway.Router.{
  AgentRouter, dispatch_to_node, dispatch_found, init, node_of_channel,
  resolve_and_dispatch_channel, agent_of, route, route_by, get_effective_scope,
}
use templar.Gateway.Router.Dispatch.{handed}
use templar.Gateway.Router.Meaning.{IsMeantFor}
use templar.Gateway.Router.WithScope.{
  ScopedRoute, route_with_scope, with_key, after_route, bind_conversation, resolve_conversation,
  input_of,
}
use templar.Gateway.Router.WithScope.Binds.{route_with_scope-Binds}

abbrev buffer : MessageBuffer
buffer = record {
  queue = record { buffer = none ∷ none ∷ []; head = 0; tail = 0; count = 0; capacity = 2 };
  seq = 0;
  counts = zero_counts;
}

abbrev message : LaneMessage
message = record {
  id = "m1";
  lane = Lane.interrupt;
  channel_id = "general";
  payload = "";
  timestamp = 0;
  routing_context = some (record {
    peer_id = some "ann";
    account_id = none;
    group_id = none;
    message_type = some MessageType.dm;
  });
}

-- Two channels, of two nodes, of which "n" has a buffer.
abbrev router : AgentRouter
router = record init {
  channel_bindings = ("general", "n") ∷ ("other", "m") ∷ [];
  dispatchers = ("n", buffer) ∷ ("m", buffer) ∷ [];
}

-- A router with an empty conversation store.
abbrev store : ConversationStore
store = Conversations.init (record { max_conversations = 4; conversation_ttl = 100 })

abbrev storing : AgentRouter
storing = record router { conversation_store = some store }

abbrev bound : ScopedRoute
bound = record {
  routed = record {
    router = record (handed router "n" message buffer) {
      conversation_store = some (Conversations.bind store "agent:bot:general:dm:ann" "n" 7).0;
    };
    node_id = "n";
    events = (dispatch buffer message).1;
  };
  key_result = record {
    key = "agent:bot:general:dm:ann";
    requested_scope = per_channel_peer;
    effective_scope = scoped per_channel_peer;
    degraded = false;
    warnings = [];
  };
  capacity_warnings = (Conversations.bind store "agent:bot:general:dm:ann" "n" 7).2;
}

bound_returns : (route_with_scope Registry.empty storing message "bot" 7).1 ≡ ok bound
unfolding route_with_scope with_key after_route bind_conversation resolve_conversation input_of
    route route_by agent_of resolve_and_dispatch_channel node_of_channel dispatch_to_node
    dispatch_found lookup insert get_effective_scope resolve_conversation_key key_of_type dm_key
    bad_id includes
bound_returns = refl

route_with_scope-Binds_example :
    (resolve_conversation storing message "bot" ≡ ok bound.key_result)
    × IsMeantFor Registry.empty storing message "n"
    × (after : ConversationStore) × (b : ConversationBinding)
    × (bound.routed.router.conversation_store ≡ some after)
    × (lookup "agent:bot:general:dm:ann" after.bindings ≡ some b)
    × (b.node_id ≡ "n")
    × (b.last_active_at ≡ 7)
route_with_scope-Binds_example =
    route_with_scope-Binds Registry.empty storing message "bot" 7 store bound refl bound_returns
