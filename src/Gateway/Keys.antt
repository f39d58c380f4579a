-- ===== src/Gateway/Keys.antt =====
-- packages/gateway/src/protocol/conversations.ts: the key of a conversation and its parts. An optional
-- field is an Option; the schemas of zod are not modelled. The thrown Errors are a data type with what
-- their messages name.
pub mod Parse
pub mod RoundTrip
pub mod Throws
mod Tests
use templar.Prelude.{
  Bool, true, false, Option, none, some, List, [], ◌∷◌, String, if◌then◌else◌, str_eq, ℕ,
}
use templar.Prelude.Results.{Result, ok, err}
use templar.Prelude.Text.{◌<>◌, includes}
use templar.Gateway.Lanes.{MessageType}

pub data ConversationScope : Type 0 where
  main per_peer per_channel_peer per_account_channel_peer : ConversationScope

pub record ConversationKeyInput : Type 0 where
  pub scope : ConversationScope
  pub agent_id : String
  pub channel_id : String
  pub peer_id : Option String
  pub account_id : Option String
  pub group_id : Option String
  pub message_type : Option MessageType

-- `effectiveScope`: a scope or "group".
pub data EffectiveScope : Type 0 where
  scoped : ConversationScope → EffectiveScope
  grouped : EffectiveScope

pub data Warning : Type 0 where
  missing_account_id : Warning

pub record ConversationKeyResult : Type 0 where
  pub key : String
  pub requested_scope : ConversationScope
  pub effective_scope : EffectiveScope
  pub degraded : Bool
  pub warnings : List Warning

pub data IdName : Type 0 where
  agent_name channel_name peer_name account_name group_name : IdName

pub data KeyError : Type 0 where
  has_delimiter : IdName → String → KeyError
  missing_group_id : KeyError
  missing_peer_id : ConversationScope → KeyError

-- The code of ":".
abbrev pub colon : ℕ
colon = b':'

-- `value || undefined`
abbrev pub present : Option String → Option String
present none = none
present (some v) = if str_eq v "" then none else some v

-- `value?.includes(":")`
abbrev pub delimited : Option String → Bool
delimited none = false
delimited (some v) = includes colon v

abbrev pub text_of : Option String → String
text_of none = ""
text_of (some v) = v

-- The loop over the names and their values: the first value with the delimiter.
unfoldable pub bad_id : List (IdName × Option String) → Option KeyError
bad_id [] = none
bad_id ((name, value) ∷ ids) =
    if delimited value then some (has_delimiter name (text_of value)) else bad_id ids

abbrev pub result_of :
    String → ConversationScope → EffectiveScope → Bool → List Warning → ConversationKeyResult
result_of key requested effective degraded warnings = record {
  key = key;
  requested_scope = requested;
  effective_scope = effective;
  degraded = degraded;
  warnings = warnings;
}

unfoldable pub group_key :
    ConversationKeyInput → Option String → Result KeyError ConversationKeyResult
group_key i none = err missing_group_id
group_key i (some group_id) = ok (
    result_of ("agent:" <> i.agent_id <> ":" <> i.channel_id <> ":group:" <> group_id) i.scope
      grouped false [])

abbrev pub channel_peer_key : ConversationKeyInput → String → String
channel_peer_key i peer_id = "agent:" <> i.agent_id <> ":" <> i.channel_id <> ":dm:" <> peer_id

-- The last case of the switch, once the peer is known.
unfoldable pub account_key : ConversationKeyInput → String → Option String → ConversationKeyResult
account_key i peer_id none =
    result_of (channel_peer_key i peer_id) per_account_channel_peer (scoped per_channel_peer) true
      (missing_account_id ∷ [])
account_key i peer_id (some account_id) =
    result_of
      ("agent:" <> i.agent_id <> ":" <> i.channel_id <> ":" <> account_id <> ":dm:" <> peer_id)
      per_account_channel_peer (scoped per_account_channel_peer) false []

-- The switch over the scope, with the peer and the account.
unfoldable pub dm_key :
    ConversationKeyInput
    → ConversationScope
    → Option String
    → Option String
    → Result KeyError ConversationKeyResult
unfolding account_key
dm_key i main peer_id account_id =
    ok (result_of ("agent:" <> i.agent_id <> ":main") main (scoped main) false [])
dm_key i scope none account_id = err (missing_peer_id scope)
dm_key i per_peer (some peer_id) account_id =
    ok (result_of ("agent:" <> i.agent_id <> ":dm:" <> peer_id) per_peer (scoped per_peer) false [])
dm_key i per_channel_peer (some peer_id) account_id =
    ok (result_of (channel_peer_key i peer_id) per_channel_peer (scoped per_channel_peer) false [])
dm_key i per_account_channel_peer (some peer_id) account_id = ok (account_key i peer_id account_id)

-- The identifiers after empty texts are dropped, in the order in which the loop visits them.
abbrev pub ids_of : ConversationKeyInput → List (IdName × Option String)
ids_of i =
    (agent_name, some i.agent_id)
    ∷ (channel_name, some i.channel_id)
    ∷ (peer_name, present i.peer_id)
    ∷ (account_name, present i.account_id)
    ∷ (group_name, present i.group_id)
    ∷ []

unfoldable pub key_of_type :
    ConversationKeyInput → Option MessageType → Result KeyError ConversationKeyResult
unfolding group_key dm_key
key_of_type i (some MessageType.group) = group_key i (present i.group_id)
key_of_type i (some MessageType.dm) = dm_key i i.scope (present i.peer_id) (present i.account_id)
key_of_type i none = dm_key i i.scope (present i.peer_id) (present i.account_id)

abbrev pub unless_bad :
    Option KeyError → Result KeyError ConversationKeyResult → Result KeyError ConversationKeyResult
unless_bad none r = r
unless_bad (some e) r = err e

unfoldable pub resolve_conversation_key :
    ConversationKeyInput → Result KeyError ConversationKeyResult
unfolding bad_id key_of_type
resolve_conversation_key i = unless_bad (bad_id (ids_of i)) (key_of_type i i.message_type)
