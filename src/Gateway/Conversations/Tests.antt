-- ===== src/Gateway/Conversations/Tests.antt =====
-- Runs of packages/gateway/src/conversations/conversation-store.ts.
use templar.Prelude.{◌≡◌, none, List, [], ◌∷◌}
use templar.Prelude.Maps.{lookup}
use templar.Gateway.Conversations.{
  ConversationStore, ConversationStoreConfig, Call, binds, removes, sweeps, init, remove_node, run,
}
use templar.Gateway.Conversations.Index.{bound_to}
use templar.Gateway.Conversations.Bind.{IsIndexed}
use templar.Gateway.Conversations.History.{conversations_run-IsIndexed, remove_node_lem}
use templar.Prelude.{if◌then◌else◌}

abbrev config : ConversationStoreConfig
config = record { max_conversations = 2; conversation_ttl = 100 }

-- The second binding of "a" moves it to another node; "c" needs room.
abbrev calls : List Call
calls =
    binds "a" "n" 0
    ∷ binds "b" "n" 10
    ∷ binds "a" "m" 20
    ∷ binds "c" "m" 30
    ∷ sweeps 125
    ∷ removes "n"
    ∷ []

conversations_run-IsIndexed_example : IsIndexed (run (init config) calls)
conversations_run-IsIndexed_example = conversations_run-IsIndexed config calls

abbrev store : ConversationStore
store = run (init config) (binds "a" "n" 0 ∷ binds "b" "m" 10 ∷ [])

store-IsIndexed : IsIndexed store
store-IsIndexed = conversations_run-IsIndexed config (binds "a" "n" 0 ∷ binds "b" "m" 10 ∷ [])

remove_node_lem_example :
    lookup "a" (remove_node store "n").0.bindings
    ≡ (if bound_to "n" (lookup "a" store.bindings) then none else lookup "a" store.bindings)
remove_node_lem_example = remove_node_lem store "n" "a" store-IsIndexed
