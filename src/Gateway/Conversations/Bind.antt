-- ===== src/Gateway/Conversations/Bind.antt =====
-- Binding a conversation in packages/gateway/src/conversations/conversation-store.ts keeps the index.
use templar.Prelude.{
  ℕ, ◌≡◌, refl, sym, ap, subst, ◌∙◌, ◌&&◌, ◌||◌, Bool-cases, Option, none, some, Option-cases,
  String, arith, inl, inr, if◌then◌else◌, str_eq, eq_iff,
}
use templar.Prelude.Maps.{
  lookup-insert_self, Map, lookup, insert, erase, Unique, Each, Each-of_lookup, Each-lookup,
  insert-Unique, erase-Unique, lookup-insert, lookup-erase,
}
use templar.Gateway.Conversations.{
  bind, put, prepare, check_capacity_warning, new_binding, ConversationStore, ConversationBinding,
  ConversationStoreConfig, init, remove_from_node_index, drop_key, drop_oldest, evict_oldest,
  find_oldest,
}
use templar.Gateway.Conversations.Index.{in_index, bound_to, in_index-add, in_index-remove}

abbrev pub OwnKey : String → ConversationBinding → Type 0
OwnKey k b = b.conversation_key ≡ k

-- A binding has its own key, and the index lists a key under the node that it is bound to and no other.
pub record IsIndexed (s : ConversationStore) : Type 0 where
  pub unique : Unique s.bindings
  pub own_keys : Each OwnKey s.bindings
  pub agrees : (n k : String) → in_index s.node_index n k ≡ bound_to n (lookup k s.bindings)

pub init-IsIndexed : (config : ConversationStoreConfig) → IsIndexed (init config)
unfolding Unique lookup
init-IsIndexed config = record { unique = tt; own_keys = λ k. tt; agrees = λ n k. refl }

warning_keeps :
    (s : ConversationStore)
    → ((check_capacity_warning s).0.bindings ≡ s.bindings)
      × ((check_capacity_warning s).0.node_index ≡ s.node_index)
unfolding check_capacity_warning
warning_keeps s = ground arith

pub warning-IsIndexed :
    (s : ConversationStore) → IsIndexed s → IsIndexed (check_capacity_warning s).0
warning-IsIndexed s v =
    let (e, e') = warning_keeps s in
    record {
      unique = subst Unique (sym e) v.unique;
      own_keys = subst (Each OwnKey) (sym e) v.own_keys;
      agrees = λ n k.
          ap (λ i. in_index i n k) e' ∙ v.agrees n k ∙ ap (λ m. bound_to n (lookup k m)) (sym e);
    }

erase-OwnKey :
    (key : String) (m : Map ConversationBinding) → Each OwnKey m → Each OwnKey (erase key m)
erase-OwnKey key m h =
    Each-of_lookup OwnKey (erase key m)
      (λ k b e. Each-lookup OwnKey m h k b (ground (arith, lookup-erase key k m)))

drop_key-IsIndexed :
    (s : ConversationStore) (key : String)
    → IsIndexed s
    → IsIndexed (drop_key s key (lookup key s.bindings))
drop_key-IsIndexed s key v = elim (Option-cases (lookup key s.bindings)) [
  | inl e ↦ rw e (record {
    unique = erase-Unique key s.bindings v.unique;
    own_keys = erase-OwnKey key s.bindings v.own_keys;
    agrees = λ n k. ground (arith, v.agrees n k, eq_iff key k, lookup-erase key k s.bindings);
  })
  | inr (b, e) ↦ rw e (record {
    unique = erase-Unique key s.bindings v.unique;
    own_keys = erase-OwnKey key s.bindings v.own_keys;
    agrees = λ n k. ground (
      arith,
      v.agrees n k,
      eq_iff key k,
      lookup-erase key k s.bindings,
      in_index-remove s.node_index b.node_id key n k,
    );
  })
]

drop_oldest-IsIndexed :
    (s : ConversationStore) (o : Option (String × ConversationBinding))
    → IsIndexed s
    → IsIndexed (drop_oldest s o)
unfolding drop_oldest
drop_oldest-IsIndexed s none v = v
drop_oldest-IsIndexed s (some (key, b)) v = elim (Bool-cases (str_eq key "")) [
  | inl e ↦ rw e v
  | inr e ↦ rw e (drop_key-IsIndexed s key v)
]

pub evict_oldest-IsIndexed : (s : ConversationStore) → IsIndexed s → IsIndexed (evict_oldest s)
unfolding evict_oldest
evict_oldest-IsIndexed s v = drop_oldest-IsIndexed s (find_oldest none s.bindings) v

drop_oldest-absent :
    (s : ConversationStore) (o : Option (String × ConversationBinding)) (key : String)
    → lookup key s.bindings ≡ none
    → lookup key (drop_oldest s o).bindings ≡ none
unfolding drop_oldest
drop_oldest-absent s none key e = e
drop_oldest-absent s (some (k, b)) key e = elim (Option-cases (lookup k s.bindings)) [
  | inl e' ↦ ground (arith, e, e', lookup-erase k key s.bindings)
  | inr (b', e') ↦ ground (arith, e, e', lookup-erase k key s.bindings)
]

pub evict_oldest-absent :
    (s : ConversationStore) (key : String)
    → lookup key s.bindings ≡ none
    → lookup key (evict_oldest s).bindings ≡ none
unfolding evict_oldest
evict_oldest-absent s key e = drop_oldest-absent s (find_oldest none s.bindings) key e

-- What the index must list for a key to be put under a node.
abbrev IsReady : ConversationStore → String → String → Type 0
IsReady s key node_id =
    (n k : String)
    → (in_index s.node_index n k || (str_eq node_id n && str_eq key k))
      ≡ (if str_eq key k then str_eq node_id n else bound_to n (lookup k s.bindings))

put-IsIndexed :
    (s : ConversationStore) (key node_id : String) (b : ConversationBinding)
    → b.conversation_key ≡ key
    → b.node_id ≡ node_id
    → Unique s.bindings
    → Each OwnKey s.bindings
    → IsReady s key node_id
    → IsIndexed (put s key node_id b)
unfolding put
put-IsIndexed s key node_id b ek en u own ready = record {
  unique = insert-Unique key b s.bindings u;
  own_keys = Each-of_lookup OwnKey (insert key b s.bindings) (λ k b' e.
      elim (Bool-cases (str_eq key k)) [
        | inl same ↦ ground (arith, ek, e, eq_iff key k, lookup-insert key k b s.bindings)
        | inr other ↦
            Each-lookup OwnKey s.bindings own k b'
              (ground (arith, e, lookup-insert key k b s.bindings))
      ]);
  agrees = λ n k.
      in_index-add s.node_index node_id key n k
      ∙ ready n k
      ∙ ground (arith, en, lookup-insert key k b s.bindings);
}

indexed-IsReady :
    (s : ConversationStore) (key node_id : String)
    → (agrees : (n k : String) → in_index s.node_index n k ≡ bound_to n (lookup k s.bindings))
    → (lookup key s.bindings ≡ none)
    → IsReady s key node_id
indexed-IsReady s key node_id agrees e n k = ground (arith, e, agrees n k, eq_iff key k)

pub bind_new-IsIndexed :
    (s : ConversationStore) (key node_id : String) (b : ConversationBinding)
    → b.conversation_key ≡ key
    → b.node_id ≡ node_id
    → lookup key s.bindings ≡ none
    → IsIndexed s
    → IsIndexed (put s key node_id b)
bind_new-IsIndexed s key node_id b ek en e v =
    put-IsIndexed s key node_id b ek en v.unique v.own_keys
      (indexed-IsReady s key node_id v.agrees e)

pub bind_known-IsIndexed :
    (s : ConversationStore) (key node_id : String) (b old : ConversationBinding)
    → b.conversation_key ≡ key
    → b.node_id ≡ node_id
    → lookup key s.bindings ≡ some old
    → IsIndexed s
    → IsIndexed (put (prepare s key node_id (some old)) key node_id b)
unfolding prepare
bind_known-IsIndexed s key node_id b old ek en e v =
    elim (Bool-cases (str_eq old.node_id node_id)) [
      | inl same ↦ rw same (
          put-IsIndexed s key node_id b ek en v.unique v.own_keys
            (λ n k. ground (arith, e, v.agrees n k, eq_iff key k, eq_iff old.node_id node_id)))
      | inr moved ↦ rw moved (
          put-IsIndexed
            (record s { node_index = remove_from_node_index s.node_index old.node_id key }) key
            node_id b ek en v.unique v.own_keys
            (λ n k. ground (
              arith,
              e,
              v.agrees n k,
              eq_iff key k,
              in_index-remove s.node_index old.node_id key n k,
            )))
    ]

put-lookup :
    (s : ConversationStore) (key node_id : String) (b : ConversationBinding)
    → lookup key (check_capacity_warning (put s key node_id b)).0.bindings ≡ some b
unfolding put check_capacity_warning
put-lookup s key node_id b = ground (arith, lookup-insert_self key b s.bindings)

-- A conversation that is bound is found under its key.
pub bind-lookup :
    (s : ConversationStore) (key node_id : String) (now : ℕ)
    → lookup key (bind s key node_id now).0.bindings
      ≡ some (new_binding key node_id now (lookup key s.bindings))
unfolding bind
bind-lookup s key node_id now =
    put-lookup (prepare s key node_id (lookup key s.bindings)) key node_id
      (new_binding key node_id now (lookup key s.bindings))
