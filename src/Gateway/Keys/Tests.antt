-- ===== src/Gateway/Keys/Tests.antt =====
-- Runs of packages/gateway/src/protocol/conversations.ts.
use templar.Prelude.{true, false, not, ◌&&◌, ◌||◌, none, some, [], ◌∷◌, ◌≡◌, refl}
use templar.Prelude.Results.{ok, err}
use templar.Prelude.Text.{includes, split, push_char}
use templar.Gateway.Lanes.{MessageType}
use templar.Gateway.Keys.{
  ConversationKeyInput, ConversationKeyResult, per_channel_peer, per_account_channel_peer, scoped,
  grouped, missing_account_id, has_delimiter, peer_name, result_of, bad_id, key_of_type, group_key,
  dm_key, account_key, resolve_conversation_key,
}
use templar.Gateway.Keys.Parse.{parse_parts, parse_conversation_key}
use templar.Gateway.Keys.RoundTrip.{address_of, parse_conversation_key-resolve_conversation_key}
use templar.Gateway.Keys.Throws.{
  throws, degrades, has_bad_id, lacks_id, lacks_account, resolve_conversation_key-throws,
}

abbrev direct : ConversationKeyInput
direct = record {
  scope = per_account_channel_peer;
  agent_id = "bot";
  channel_id = "dm";
  peer_id = some "ann";
  account_id = some "";
  group_id = none;
  message_type = some MessageType.dm;
}

-- The same conversation, asked for in another scope.
abbrev narrow : ConversationKeyInput
narrow = record direct { scope = per_channel_peer; account_id = some "work" }

abbrev degraded_result : ConversationKeyResult
degraded_result =
    result_of "agent:bot:dm:dm:ann" per_account_channel_peer (scoped per_channel_peer) true
      (missing_account_id ∷ [])

abbrev narrow_result : ConversationKeyResult
narrow_result = result_of "agent:bot:dm:dm:ann" per_channel_peer (scoped per_channel_peer) false []

resolve_direct : resolve_conversation_key direct ≡ ok degraded_result
unfolding resolve_conversation_key bad_id key_of_type dm_key account_key includes
resolve_direct = refl

resolve_narrow : resolve_conversation_key narrow ≡ ok narrow_result
unfolding resolve_conversation_key bad_id key_of_type dm_key account_key includes
resolve_narrow = refl

resolve_delimiter :
    resolve_conversation_key (record direct { peer_id = some "a:b" })
    ≡ err (has_delimiter peer_name "a:b")
unfolding resolve_conversation_key bad_id key_of_type dm_key account_key includes
resolve_delimiter = refl

resolve_group :
    resolve_conversation_key
      (record direct { group_id = some "g"; message_type = some MessageType.group })
    ≡ ok (result_of "agent:bot:dm:group:g" per_account_channel_peer grouped false [])
unfolding resolve_conversation_key bad_id key_of_type group_key includes
resolve_group = refl

parse_unknown : parse_conversation_key "agent:bot:dm" ≡ none
unfolding parse_conversation_key parse_parts split push_char
parse_unknown = refl

parse_conversation_key-resolve_conversation_key_example :
    parse_conversation_key "agent:bot:dm:dm:ann"
    ≡ some (address_of direct (scoped per_channel_peer))
parse_conversation_key-resolve_conversation_key_example =
    parse_conversation_key-resolve_conversation_key direct degraded_result resolve_direct

resolve_conversation_key-throws_example :
    (throws (resolve_conversation_key direct) ≡ has_bad_id direct || lacks_id direct)
    × (degrades (resolve_conversation_key direct)
        ≡ not (throws (resolve_conversation_key direct)) && lacks_account direct)
resolve_conversation_key-throws_example = resolve_conversation_key-throws direct
