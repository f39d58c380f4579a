-- ===== src/Gateway/Conversations.antt =====
-- packages/gateway/src/conversations/conversation-store.ts. A set of keys is a list without repetitions,
-- and `now - ttl` is compared as a sum. What the handlers of the capacity warning are told is a result
-- of the call; the ratio is exact, for a maximum of at least 1. The schema of a snapshot is a parameter.
pub mod Index
pub mod Bind
pub mod History
mod Tests
use templar.Prelude.{
  ℕ, ◌+◌, ◌*◌, ◌/◌, Bool, true, false, not, ◌&&◌, Option, none, some, List, [], ◌∷◌, ◌++◌, String,
  leb, ltb, if◌then◌else◌, str_eq, any, keep, length,
}
use templar.Prelude.Maps.{Map, lookup, insert, erase, size, values, map_filter}

pub record ConversationBinding : Type 0 where
  pub conversation_key : String
  pub node_id : String
  pub created_at : ℕ
  pub last_active_at : ℕ

pub record ConversationStoreConfig : Type 0 where
  pub max_conversations : ℕ
  pub conversation_ttl : ℕ

pub record ConversationStore : Type 0 where
  pub bindings : Map ConversationBinding
  pub node_index : Map (List String)
  pub config : ConversationStoreConfig
  pub capacity_warning_emitted : Bool

abbrev pub init : ConversationStoreConfig → ConversationStore
init config = record {
  bindings = [];
  node_index = [];
  config = config;
  capacity_warning_emitted = false;
}

-- `Set.has`
abbrev pub in_set : String → List String → Bool
in_set k = any (λ j. str_eq j k)

pub add_key : Map (List String) → String → String → Option (List String) → Map (List String)
add_key index node_id key none = insert node_id (key ∷ []) index
add_key index node_id key (some ks) =
    if in_set key ks then index else insert node_id (ks ++ key ∷ []) index

pub add_to_node_index : Map (List String) → String → String → Map (List String)
unfolding add_key
add_to_node_index index node_id key = add_key index node_id key (lookup node_id index)

pub set_keys : Map (List String) → String → List String → Map (List String)
set_keys index node_id [] = erase node_id index
set_keys index node_id (k ∷ ks) = insert node_id (k ∷ ks) index

abbrev pub without_key : String → List String → List String
without_key key = keep (λ j. not (str_eq j key))

pub remove_key : Map (List String) → String → String → Option (List String) → Map (List String)
unfolding set_keys
remove_key index node_id key none = index
remove_key index node_id key (some ks) =
    if in_set key ks then set_keys index node_id (without_key key ks) else index

pub remove_from_node_index : Map (List String) → String → String → Map (List String)
unfolding remove_key
remove_from_node_index index node_id key = remove_key index node_id key (lookup node_id index)

-- What a handler of the capacity warning is told: the size, the maximum and the rounded percentage.
pub record CapacityWarning : Type 0 where
  pub current : ℕ
  pub max : ℕ
  pub percent : ℕ

pub check_capacity_warning : ConversationStore → ConversationStore × List CapacityWarning
check_capacity_warning s =
    let n = size s.bindings in
    let max = s.config.max_conversations in
    if leb (8 * max) (10 * n) && not s.capacity_warning_emitted
    then (
      record s { capacity_warning_emitted = true },
      record { current = n; max = max; percent = (200 * n + max) / (2 * max) } ∷ [],
    )
    else if ltb (10 * n) (7 * max) && s.capacity_warning_emitted
    then (record s { capacity_warning_emitted = false }, [])
    else (s, [])

-- Whether a time is before the oldest so far; before the first it is Infinity.
abbrev pub before : ℕ → Option (String × ConversationBinding) → Bool
before t none = true
before t (some (k, b)) = ltb t b.last_active_at

pub find_oldest :
    Option (String × ConversationBinding)
    → Map ConversationBinding
    → Option (String × ConversationBinding)
find_oldest best [] = best
find_oldest best ((k, b) ∷ bindings) =
    find_oldest (if before b.last_active_at best then some (k, b) else best) bindings

abbrev pub drop_key : ConversationStore → String → Option ConversationBinding → ConversationStore
drop_key s key none = record s { bindings = erase key s.bindings }
drop_key s key (some b) = record s {
  bindings = erase key s.bindings;
  node_index = remove_from_node_index s.node_index b.node_id key;
}

-- The empty key counts as absent.
pub drop_oldest : ConversationStore → Option (String × ConversationBinding) → ConversationStore
unfolding remove_from_node_index
drop_oldest s none = s
drop_oldest s (some (key, b)) = if str_eq key "" then s else drop_key s key (lookup key s.bindings)

pub evict_oldest : ConversationStore → ConversationStore
unfolding find_oldest drop_oldest
evict_oldest s = drop_oldest s (find_oldest none s.bindings)

-- The store before the binding is put: a binding to another node leaves that node's index, and a new
-- key may need room.
pub prepare : ConversationStore → String → String → Option ConversationBinding → ConversationStore
unfolding evict_oldest
prepare s key node_id none =
    if leb s.config.max_conversations (size s.bindings) then evict_oldest s else s
prepare s key node_id (some b) =
    if str_eq b.node_id node_id
    then s
    else record s { node_index = remove_from_node_index s.node_index b.node_id key }

abbrev pub created : ℕ → Option ConversationBinding → ℕ
created now none = now
created now (some b) = b.created_at

abbrev pub new_binding : String → String → ℕ → Option ConversationBinding → ConversationBinding
new_binding key node_id now existing = record {
  conversation_key = key;
  node_id = node_id;
  created_at = created now existing;
  last_active_at = now;
}

pub put : ConversationStore → String → String → ConversationBinding → ConversationStore
unfolding add_to_node_index
put s key node_id b = record s {
  bindings = insert key b s.bindings;
  node_index = add_to_node_index s.node_index node_id key;
}

pub bind :
    ConversationStore
    → String
    → String
    → ℕ
    → ConversationStore × ConversationBinding × List CapacityWarning
unfolding prepare put check_capacity_warning
bind s key node_id now =
    let existing = lookup key s.bindings in
    let binding = new_binding key node_id now existing in
    let (s', warnings) =
      check_capacity_warning (put (prepare s key node_id existing) key node_id binding) in
    (s', binding, warnings)

abbrev pub drop_node : ConversationStore → String → List String → ConversationStore
drop_node s node_id keys = record s {
  bindings = map_filter (λ key b. not (in_set key keys)) s.bindings;
  node_index = erase node_id s.node_index;
}

pub remove_keys :
    ConversationStore → String → Option (List String) → ConversationStore × ℕ × List CapacityWarning
unfolding check_capacity_warning
remove_keys s node_id none = (s, 0, [])
remove_keys s node_id (some []) = (s, 0, [])
remove_keys s node_id (some (k ∷ ks)) =
    let (s', warnings) = check_capacity_warning (drop_node s node_id (k ∷ ks)) in
    (s', length (k ∷ ks), warnings)

pub remove_node : ConversationStore → String → ConversationStore × ℕ × List CapacityWarning
unfolding remove_keys
remove_node s node_id = remove_keys s node_id (lookup node_id s.node_index)

abbrev pub is_expired : ConversationStore → ℕ → ConversationBinding → Bool
is_expired s now b = ltb (b.last_active_at + s.config.conversation_ttl) now

-- The loop over the expired bindings.
pub remove_all : Map (List String) → List ConversationBinding → Map (List String)
unfolding remove_from_node_index
remove_all index [] = index
remove_all index (b ∷ bs) =
    remove_all (remove_from_node_index index b.node_id b.conversation_key) bs

abbrev pub swept : ConversationStore → ℕ → ConversationStore
swept s now = record s {
  bindings = map_filter (λ key b. not (is_expired s now b)) s.bindings;
  node_index = remove_all s.node_index (keep (is_expired s now) (values s.bindings));
}

pub sweep : ConversationStore → ℕ → ConversationStore × ℕ × List CapacityWarning
unfolding remove_all check_capacity_warning
sweep s now =
    let (s', warnings) = check_capacity_warning (swept s now) in
    (s', length (keep (is_expired s now) (values s.bindings)), warnings)

pub clear : ConversationStore → ConversationStore
clear s = record s { bindings = []; node_index = [] }

pub update_config : ConversationStore → ConversationStoreConfig → ConversationStore
update_config s config = record s { config = config }

pub record ConversationStoreSnapshot : Type 0 where
  pub version : ℕ
  pub bindings : List ConversationBinding
  pub captured_at : ℕ

pub to_snapshot : ConversationStore → ℕ → ConversationStoreSnapshot
to_snapshot s now = record { version = 1; bindings = values s.bindings; captured_at = now }

-- The loop of `fromSnapshot`.
pub restore : ConversationStore → List ConversationBinding → ConversationStore
unfolding put
restore s [] = s
restore s (b ∷ bs) = restore (put s b.conversation_key b.node_id b) bs

-- `none` is the ZodError of a snapshot that the schema refuses.
pub from_snapshot :
    (ConversationStoreSnapshot → Bool)
    → ConversationStore
    → ConversationStoreSnapshot
    → Option ConversationStore
unfolding clear restore
from_snapshot schema s snapshot =
    if schema snapshot then some (restore (clear s) snapshot.bindings) else none

pub data Call : Type 0 where
  binds : (key node_id : String) (now : ℕ) → Call
  removes : (node_id : String) → Call
  sweeps : (now : ℕ) → Call
  clears : Call
  configures : ConversationStoreConfig → Call

pub step : ConversationStore → Call → ConversationStore
unfolding bind remove_node sweep clear update_config
step s (binds key node_id now) = (bind s key node_id now).0
step s (removes node_id) = (remove_node s node_id).0
step s (sweeps now) = (sweep s now).0
step s clears = clear s
step s (configures config) = update_config s config

pub run : ConversationStore → List Call → ConversationStore
unfolding step
run s [] = s
run s (c ∷ calls) = run (step s c) calls
