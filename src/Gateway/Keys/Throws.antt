-- ===== src/Gateway/Keys/Throws.antt =====
-- packages/gateway/src/protocol/conversations.ts: when `resolveConversationKey` throws, and when it
-- degrades.
use templar.Prelude.{
  Bool, true, false, not, ◌&&◌, ◌||◌, Option, none, some, List, [], ◌∷◌, String, ◌≡◌, refl, sym, ap,
  arith, any, str_eq, if◌then◌else◌, Bool-cases, eq_iff, inl, inr,
}
use templar.Prelude.Results.{Result, ok, err}
use templar.Prelude.Text.{includes}
use templar.Gateway.Lanes.{MessageType}
use templar.Gateway.Keys.{
  ConversationKeyInput, ConversationKeyResult, ConversationScope, main, per_peer, per_channel_peer,
  per_account_channel_peer, IdName, delimited, present, KeyError, bad_id, ids_of, key_of_type,
  group_key, dm_key, account_key, unless_bad, resolve_conversation_key, colon,
}

abbrev is_group : Option MessageType → Bool
is_group (some MessageType.group) = true
is_group (some MessageType.dm) = false
is_group none = false

abbrev absent : Option String → Bool
absent none = true
absent (some v) = str_eq v ""

abbrev is_main : ConversationScope → Bool
is_main main = true
is_main per_peer = false
is_main per_channel_peer = false
is_main per_account_channel_peer = false

abbrev is_account : ConversationScope → Bool
is_account main = false
is_account per_peer = false
is_account per_channel_peer = false
is_account per_account_channel_peer = true

-- An identifier of the input holds the delimiter.
abbrev pub has_bad_id : ConversationKeyInput → Bool
has_bad_id i =
    delimited (some i.agent_id)
    || delimited (some i.channel_id)
    || delimited i.peer_id
    || delimited i.account_id
    || delimited i.group_id

-- The group of a group message or the peer that the scope needs is missing.
abbrev pub lacks_id : ConversationKeyInput → Bool
lacks_id i =
    if is_group i.message_type then absent i.group_id else not (is_main i.scope) && absent i.peer_id

abbrev pub throws : Result KeyError ConversationKeyResult → Bool
throws (ok r) = false
throws (err e) = true

abbrev pub degrades : Result KeyError ConversationKeyResult → Bool
degrades (ok r) = r.degraded
degrades (err e) = false

-- A direct message in the account scope, with a peer and without an account.
abbrev pub lacks_account : ConversationKeyInput → Bool
lacks_account i = not (is_group i.message_type) && is_account i.scope && absent i.account_id

present-absent : (o : Option String) → absent o ≡ elim (present o) [ none ↦ true | some _ ↦ false ]
present-absent none = refl
present-absent (some v) = ground arith

delimited-present : (o : Option String) → delimited (present o) ≡ delimited o
unfolding includes
delimited-present none = refl
delimited-present (some v) = elim (Bool-cases (str_eq v "")) [
  | inl same ↦ rw same (sym (ap (includes colon) ((eq_iff v "").0 same)))
  | inr other ↦ rw other
]

bad_id-throws :
    (ids : List (IdName × Option String)) (r : Result KeyError ConversationKeyResult)
    → throws (unless_bad (bad_id ids) r) ≡ any (λ e. delimited e.1) ids || throws r
unfolding bad_id
bad_id-throws [] r = refl
bad_id-throws ((name, value) ∷ ids) r = ground (arith, bad_id-throws ids r)

bad_id-degrades :
    (ids : List (IdName × Option String)) (r : Result KeyError ConversationKeyResult)
    → degrades (unless_bad (bad_id ids) r) ≡ not (any (λ e. delimited e.1) ids) && degrades r
unfolding bad_id
bad_id-degrades [] r = refl
bad_id-degrades ((name, value) ∷ ids) r = ground (arith, bad_id-degrades ids r)

any-bad_id : (i : ConversationKeyInput) → any (λ e. delimited e.1) (ids_of i) ≡ has_bad_id i
any-bad_id i = ground (
  arith,
  delimited-present i.peer_id,
  delimited-present i.account_id,
  delimited-present i.group_id,
)

dm_key-throws :
    (i : ConversationKeyInput) (s : ConversationScope) (p n : Option String)
    → (throws (dm_key i s p n) ≡ not (is_main s) && elim p [ none ↦ true | some _ ↦ false ])
      × (degrades (dm_key i s p n) ≡ elim p [
        | none ↦ false
        | some _ ↦ is_account s && elim n [ none ↦ true | some _ ↦ false ]
      ])
unfolding dm_key account_key
dm_key-throws i main p n = ground arith
dm_key-throws i per_peer p n = ground arith
dm_key-throws i per_channel_peer p n = ground arith
dm_key-throws i per_account_channel_peer p n = ground arith

key_of_type-throws :
    (i : ConversationKeyInput) (t : Option MessageType)
    → (throws (key_of_type i t)
        ≡ (if is_group t then absent i.group_id else not (is_main i.scope) && absent i.peer_id))
      × (degrades (key_of_type i t)
          ≡ (not (is_group t) && is_account i.scope && absent i.account_id)
            && not (absent i.peer_id))
unfolding key_of_type group_key
key_of_type-throws i (some MessageType.group) = ground (arith, present-absent i.group_id)
key_of_type-throws i (some MessageType.dm) = ground (
  arith,
  dm_key-throws i i.scope (present i.peer_id) (present i.account_id),
  present-absent i.peer_id,
  present-absent i.account_id,
)
key_of_type-throws i none = ground (
  arith,
  dm_key-throws i i.scope (present i.peer_id) (present i.account_id),
  present-absent i.peer_id,
  present-absent i.account_id,
)

-- Resolving a key throws exactly if an identifier contains ':', or a group message has no group, or a
-- direct message has no peer and its scope is not "main"; otherwise the result is degraded exactly if
-- it is a direct message in the account scope without an account. Empty texts count as missing.
pub resolve_conversation_key-throws :
    (i : ConversationKeyInput)
    → (throws (resolve_conversation_key i) ≡ has_bad_id i || lacks_id i)
      × (degrades (resolve_conversation_key i)
          ≡ not (throws (resolve_conversation_key i)) && lacks_account i)
unfolding resolve_conversation_key
resolve_conversation_key-throws i = ground (
  arith,
  bad_id-throws (ids_of i) (key_of_type i i.message_type),
  bad_id-degrades (ids_of i) (key_of_type i i.message_type),
  any-bad_id i,
  key_of_type-throws i i.message_type,
)
