-- ===== src/Gateway/Keys/Parse.antt =====
-- `parseConversationKey` of packages/gateway/src/protocol/conversations.ts: the tests on the parts of a
-- key, in the source's order.
use templar.Prelude.{
  not, ◌&&◌, ℕ, Option, none, some, List, [], ◌∷◌, String, if◌then◌else◌, str_eq, ltb, ◌==◌, length,
}
use templar.Prelude.Text.{split}
use templar.Gateway.Lanes.{MessageType}
use templar.Gateway.Keys.{
  ConversationKeyInput, ConversationScope, main, per_peer, per_channel_peer,
  per_account_channel_peer, colon,
}

abbrev pub input_of : ConversationScope → String → String → ConversationKeyInput
input_of scope agent_id channel_id = record {
  scope = scope;
  agent_id = agent_id;
  channel_id = channel_id;
  peer_id = none;
  account_id = none;
  group_id = none;
  message_type = none;
}

-- The text at an index, "" out of range: the source reads only indices below the length.
abbrev pub part : List String → ℕ → String
part [] i = ""
part (p ∷ ps) ℕ.zero = p
part (p ∷ ps) (ℕ.suc i) = part ps i

unfoldable pub parse_parts : List String → Option ConversationKeyInput
parse_parts parts =
    let agent_id = part parts 1 in
    let channel_id = part parts 2 in
    if ltb (length parts) 3
    then none
    else if not (str_eq (part parts 0) "agent")
    then none
    else if str_eq (part parts 2) "main" && (length parts == 3)
    then some (input_of main agent_id "")
    else if str_eq (part parts 2) "dm" && (length parts == 4)
    then some (record (input_of per_peer agent_id "") { peer_id = some (part parts 3) })
    else if str_eq (part parts 3) "group" && (length parts == 5)
    then some (record (input_of main agent_id channel_id) {
      group_id = some (part parts 4);
      message_type = some MessageType.group;
    })
    else if str_eq (part parts 3) "dm" && (length parts == 5)
    then some
        (record (input_of per_channel_peer agent_id channel_id) { peer_id = some (part parts 4) })
    else if str_eq (part parts 4) "dm" && (length parts == 6)
    then some (record (input_of per_account_channel_peer agent_id channel_id) {
      account_id = some (part parts 3);
      peer_id = some (part parts 5);
    })
    else none

unfoldable pub parse_conversation_key : String → Option ConversationKeyInput
unfolding parse_parts
parse_conversation_key key = parse_parts (split colon key)
