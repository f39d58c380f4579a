-- ===== src/Gateway/Keys/RoundTrip.antt =====
-- packages/gateway/src/protocol/conversations.ts: what `parseConversationKey` recovers from a key that
-- `resolveConversationKey` gives.
use templar.Prelude.{
  false, Option, none, some, List, [], ◌∷◌, String, ◌≡◌, refl, sym, ap, subst, ◌∙◌, Option-cases,
  arith, All, inl, inr,
}
use templar.Prelude.Results.{Result, ok, err}
use templar.Prelude.Text.{◌<>◌, includes, split-join}
use templar.Gateway.Lanes.{MessageType}
use templar.Gateway.Keys.{
  ConversationKeyInput, ConversationKeyResult, ConversationScope, main, per_peer, per_channel_peer,
  per_account_channel_peer, EffectiveScope, scoped, grouped, IdName, delimited, present, KeyError,
  bad_id, ids_of, key_of_type, group_key, dm_key, account_key, unless_bad, resolve_conversation_key,
  colon,
}
use templar.Gateway.Keys.Parse.{input_of, parse_parts, parse_conversation_key}

-- The part of the input that the key of an effective scope holds.
abbrev pub address_of : ConversationKeyInput → EffectiveScope → ConversationKeyInput
address_of i grouped = record (input_of main i.agent_id i.channel_id) {
  group_id = present i.group_id;
  message_type = some MessageType.group;
}
address_of i (scoped main) = input_of main i.agent_id ""
address_of i (scoped per_peer) = record (input_of per_peer i.agent_id "") {
  peer_id = present i.peer_id;
}
address_of i (scoped per_channel_peer) =
    record (input_of per_channel_peer i.agent_id i.channel_id) { peer_id = present i.peer_id }
address_of i (scoped per_account_channel_peer) =
    record (input_of per_account_channel_peer i.agent_id i.channel_id) {
      peer_id = present i.peer_id;
      account_id = present i.account_id;
    }

abbrev pub Clean : String → Type 0
Clean s = includes colon s ≡ false

parse_main :
    (a : String)
    → Clean a
    → parse_conversation_key ("agent:" <> a <> ":main") ≡ some (input_of main a "")
unfolding parse_conversation_key parse_parts includes
parse_main a ha = ap parse_parts (split-join ":" "agent" (a ∷ "main" ∷ []) (refl, (ha, (refl, tt))))

parse_peer :
    (a p : String)
    → Clean a
    → Clean p
    → parse_conversation_key ("agent:" <> a <> ":dm:" <> p)
      ≡ some (record (input_of per_peer a "") { peer_id = some p })
unfolding parse_conversation_key parse_parts includes
parse_peer a p ha hp =
    ap parse_parts (split-join ":" "agent" (a ∷ "dm" ∷ p ∷ []) (refl, (ha, (refl, (hp, tt)))))

parse_group :
    (a c g : String)
    → Clean a
    → Clean c
    → Clean g
    → parse_conversation_key ("agent:" <> a <> ":" <> c <> ":group:" <> g)
      ≡ some
          (record (input_of main a c) { group_id = some g; message_type = some MessageType.group })
unfolding parse_conversation_key parse_parts includes
parse_group a c g ha hc hg =
    ap parse_parts
      (split-join ":" "agent" (a ∷ c ∷ "group" ∷ g ∷ []) (refl, (ha, (hc, (refl, (hg, tt))))))
    ∙ ground arith

parse_channel_peer :
    (a c p : String)
    → Clean a
    → Clean c
    → Clean p
    → parse_conversation_key ("agent:" <> a <> ":" <> c <> ":dm:" <> p)
      ≡ some (record (input_of per_channel_peer a c) { peer_id = some p })
unfolding parse_conversation_key parse_parts includes
parse_channel_peer a c p ha hc hp =
    ap parse_parts
      (split-join ":" "agent" (a ∷ c ∷ "dm" ∷ p ∷ []) (refl, (ha, (hc, (refl, (hp, tt))))))
    ∙ ground arith

parse_account :
    (a c n p : String)
    → Clean a
    → Clean c
    → Clean n
    → Clean p
    → parse_conversation_key ("agent:" <> a <> ":" <> c <> ":" <> n <> ":dm:" <> p)
      ≡ some
          (record (input_of per_account_channel_peer a c) { peer_id = some p; account_id = some n })
unfolding parse_conversation_key parse_parts includes
parse_account a c n p ha hc hn hp =
    ap parse_parts (
      split-join ":" "agent" (a ∷ c ∷ n ∷ "dm" ∷ p ∷ []) (refl, (ha, (hc, (hn, (refl, (hp, tt)))))))
    ∙ ground arith

bad_id-none :
    (ids : List (IdName × Option String)) → bad_id ids ≡ none → All (λ e. delimited e.1 ≡ false) ids
unfolding bad_id
bad_id-none [] h = tt
bad_id-none ((name, value) ∷ ids) h = ground (arith, bad_id-none ids)

abbrev Recovers : ConversationKeyInput → Result KeyError ConversationKeyResult → Type 0
Recovers i (ok r) = parse_conversation_key r.key ≡ some (address_of i r.effective_scope)
Recovers i (err e) = Unit

group_key-Recovers :
    (i : ConversationKeyInput) (g : Option String)
    → present i.group_id ≡ g
    → Clean i.agent_id
    → Clean i.channel_id
    → delimited g ≡ false
    → Recovers i (group_key i g)
unfolding group_key
group_key-Recovers i none e ha hc hg = tt
group_key-Recovers i (some g) e ha hc hg =
    parse_group i.agent_id i.channel_id g ha hc hg
    ∙ ap
        (λ o. some (record (input_of main i.agent_id i.channel_id) {
          group_id = o;
          message_type = some MessageType.group;
        }))
        (sym e)

dm_key-Recovers :
    (i : ConversationKeyInput) (s : ConversationScope) (p n : Option String)
    → present i.peer_id ≡ p
    → present i.account_id ≡ n
    → Clean i.agent_id
    → Clean i.channel_id
    → delimited p ≡ false
    → delimited n ≡ false
    → Recovers i (dm_key i s p n)
unfolding dm_key account_key
dm_key-Recovers i main p n ep en ha hc hp hn = parse_main i.agent_id ha
dm_key-Recovers i per_peer none n ep en ha hc hp hn = tt
dm_key-Recovers i per_channel_peer none n ep en ha hc hp hn = tt
dm_key-Recovers i per_account_channel_peer none n ep en ha hc hp hn = tt
dm_key-Recovers i per_peer (some p) n ep en ha hc hp hn =
    parse_peer i.agent_id p ha hp
    ∙ ap (λ o. some (record (input_of per_peer i.agent_id "") { peer_id = o })) (sym ep)
dm_key-Recovers i per_channel_peer (some p) n ep en ha hc hp hn =
    parse_channel_peer i.agent_id i.channel_id p ha hc hp
    ∙ ap (λ o. some (record (input_of per_channel_peer i.agent_id i.channel_id) { peer_id = o }))
        (sym ep)
dm_key-Recovers i per_account_channel_peer (some p) none ep en ha hc hp hn =
    parse_channel_peer i.agent_id i.channel_id p ha hc hp
    ∙ ap (λ o. some (record (input_of per_channel_peer i.agent_id i.channel_id) { peer_id = o }))
        (sym ep)
dm_key-Recovers i per_account_channel_peer (some p) (some n) ep en ha hc hp hn =
    parse_account i.agent_id i.channel_id n p ha hc hn hp
    ∙ ap
        (λ (o : Option String × Option String).
          some (record (input_of per_account_channel_peer i.agent_id i.channel_id) {
            peer_id = o.0;
            account_id = o.1;
          }))
        (λ k. (sym ep k, sym en k))

key_of_type-Recovers :
    (i : ConversationKeyInput) (t : Option MessageType)
    → All (λ e. delimited e.1 ≡ false) (ids_of i)
    → Recovers i (key_of_type i t)
unfolding key_of_type
key_of_type-Recovers i (some MessageType.group) (ha, (hc, (hp, (hn, (hg, _))))) =
    group_key-Recovers i (present i.group_id) refl ha hc hg
key_of_type-Recovers i (some MessageType.dm) (ha, (hc, (hp, (hn, _)))) =
    dm_key-Recovers i i.scope (present i.peer_id) (present i.account_id) refl refl ha hc hp hn
key_of_type-Recovers i none (ha, (hc, (hp, (hn, _)))) =
    dm_key-Recovers i i.scope (present i.peer_id) (present i.account_id) refl refl ha hc hp hn

resolve-Recovers : (i : ConversationKeyInput) → Recovers i (resolve_conversation_key i)
unfolding resolve_conversation_key
resolve-Recovers i = elim (Option-cases (bad_id (ids_of i))) [
  | inl e ↦
      subst (λ o. Recovers i (unless_bad o (key_of_type i i.message_type))) (sym e)
        (key_of_type-Recovers i i.message_type (bad_id-none (ids_of i) e))
  | inr (error, e) ↦
      subst (λ o. Recovers i (unless_bad o (key_of_type i i.message_type))) (sym e) tt
]

-- Parsing the key that is resolved for an input gives back what the key's effective scope keeps of that
-- input: the agent, and the channel, account, peer or group of the scope, where an empty text counts as
-- missing.
pub parse_conversation_key-resolve_conversation_key :
    (i : ConversationKeyInput) (r : ConversationKeyResult)
    → resolve_conversation_key i ≡ ok r
    → parse_conversation_key r.key ≡ some (address_of i r.effective_scope)
parse_conversation_key-resolve_conversation_key i r h = subst (Recovers i) h (resolve-Recovers i)

abbrev given : ConversationKeyInput → Option ConversationKeyInput → ConversationKeyInput
given i none = i
given i (some j) = j

-- Conversations are isolated: two inputs with the same key, whatever their scopes, agree in all that
-- their effective scopes keep. No two agents share a key, and no direct and group conversation do.
pub resolve_conversation_key_inj :
    (i j : ConversationKeyInput) (r q : ConversationKeyResult)
    → resolve_conversation_key i ≡ ok r
    → resolve_conversation_key j ≡ ok q
    → r.key ≡ q.key
    → address_of i r.effective_scope ≡ address_of j q.effective_scope
resolve_conversation_key_inj i j r q hr hq same = ap (given i) (
    sym (parse_conversation_key-resolve_conversation_key i r hr)
    ∙ ap parse_conversation_key same
    ∙ parse_conversation_key-resolve_conversation_key j q hq)
