-- ===== src/Gateway/Conversations/History.antt =====
-- Histories of packages/gateway/src/conversations/conversation-store.ts.
use templar.Prelude.{
  ℕ, ◌≡◌, refl, sym, ap, subst, ◌∙◌, Bool, false, not, ◌&&◌, Bool-cases, Option, none, some, List,
  [], ◌∷◌, String, arith, inl, inr, if◌then◌else◌, str_eq, eq_iff, eq_refl, any, keep, leb, All,
}
use templar.Prelude.Maps.{
  Map, lookup, values, size, map_filter, Unique, Each, Each-of_lookup, Each-lookup, All-of_lookup,
  map_filter-Unique, lookup-erase, lookup-map_filter,
}
use templar.Gateway.Conversations.{
  ConversationStore, ConversationBinding, ConversationStoreConfig, Call, binds, removes, sweeps,
  clears, configures, init, in_set, remove_from_node_index, check_capacity_warning, evict_oldest,
  prepare, new_binding, put, bind, drop_node, remove_keys, remove_node, is_expired, remove_all,
  swept, sweep, clear, update_config, step, run,
}
use templar.Gateway.Conversations.Index.{keys_of, in_index, bound_to, in_index-remove}
use templar.Gateway.Conversations.Bind.{
  OwnKey, IsIndexed, init-IsIndexed, warning-IsIndexed, evict_oldest-IsIndexed, evict_oldest-absent,
  bind_new-IsIndexed, bind_known-IsIndexed,
}

new-IsIndexed :
    (s : ConversationStore) (key node_id : String) (b : ConversationBinding)
    → b.conversation_key ≡ key
    → b.node_id ≡ node_id
    → lookup key s.bindings ≡ none
    → IsIndexed s
    → IsIndexed (put (prepare s key node_id none) key node_id b)
unfolding prepare
new-IsIndexed s key node_id b ek en e v =
    elim (Bool-cases (leb s.config.max_conversations (size s.bindings))) [
      | inl full ↦ rw full (
          bind_new-IsIndexed (evict_oldest s) key node_id b ek en (evict_oldest-absent s key e)
            (evict_oldest-IsIndexed s v))
      | inr room ↦ rw room (bind_new-IsIndexed s key node_id b ek en e v)
    ]

bind-IsIndexed :
    (s : ConversationStore) (key node_id : String) (now : ℕ)
    → IsIndexed s
    → IsIndexed (bind s key node_id now).0
unfolding bind
bind-IsIndexed s key node_id now v = warning-IsIndexed _ (go (lookup key s.bindings) refl)
  where
    go :
        (o : Option ConversationBinding)
        → lookup key s.bindings ≡ o
        → IsIndexed (put (prepare s key node_id o) key node_id (new_binding key node_id now o))
    go none e = new-IsIndexed s key node_id (new_binding key node_id now none) refl refl e v
    go (some old) e =
        bind_known-IsIndexed s key node_id (new_binding key node_id now (some old)) old refl refl e
          v

filter-OwnKey :
    (p : String → ConversationBinding → Bool) (m : Map ConversationBinding)
    → Unique m
    → Each OwnKey m
    → Each OwnKey (map_filter p m)
filter-OwnKey p m u h =
    Each-of_lookup OwnKey (map_filter p m) (λ k b e. filtered k b (lookup k m) refl e)
  where
    filtered :
        (k : String) (b : ConversationBinding) (o : Option ConversationBinding)
        → lookup k m ≡ o
        → lookup k (map_filter p m) ≡ some b
        → OwnKey k b
    filtered k b none e e' = ground (arith, e, e', lookup-map_filter p k m u)
    filtered k b (some b') e e' =
        let own = Each-lookup OwnKey m h k b' e in
        ground (arith, e, e', own, lookup-map_filter p k m u)

dropped :
    (s : ConversationStore) (node_id : String) (ks : List String)
    → IsIndexed s
    → lookup node_id s.node_index ≡ some ks
    → (n k : String) (o : Option ConversationBinding) → lookup k s.bindings ≡ o
    → in_index (drop_node s node_id ks).node_index n k
      ≡ bound_to n (lookup k (drop_node s node_id ks).bindings)
dropped s node_id ks v e n k none e' = ground (
  arith,
  e,
  e',
  v.agrees n k,
  lookup-erase node_id n s.node_index,
  lookup-map_filter (λ key b. not (in_set key ks)) k s.bindings v.unique,
)
dropped s node_id ks v e n k (some b) e' = ground (
  arith,
  e,
  e',
  v.agrees n k,
  v.agrees node_id k,
  eq_iff node_id n,
  eq_iff b.node_id n,
  eq_iff b.node_id node_id,
  lookup-erase node_id n s.node_index,
  lookup-map_filter (λ key b. not (in_set key ks)) k s.bindings v.unique,
)

remove_node-IsIndexed :
    (s : ConversationStore) (node_id : String) → IsIndexed s → IsIndexed (remove_node s node_id).0
unfolding remove_node remove_keys
remove_node-IsIndexed s node_id v = go (lookup node_id s.node_index) refl
  where
    go :
        (o : Option (List String))
        → lookup node_id s.node_index ≡ o
        → IsIndexed (remove_keys s node_id o).0
    go none e = v
    go (some []) e = v
    go (some (j ∷ ks)) e = warning-IsIndexed (drop_node s node_id (j ∷ ks)) (record {
      unique = map_filter-Unique _ s.bindings v.unique;
      own_keys = filter-OwnKey _ s.bindings v.unique v.own_keys;
      agrees = λ n k. dropped s node_id (j ∷ ks) v e n k (lookup k s.bindings) refl;
    })

abbrev is_binding_of : String → String → ConversationBinding → Bool
is_binding_of n k b = str_eq b.node_id n && str_eq b.conversation_key k

in_index-remove_all :
    (index : Map (List String)) (bs : List ConversationBinding) (n k : String)
    → in_index (remove_all index bs) n k ≡ (in_index index n k && not (any (is_binding_of n k) bs))
unfolding remove_all
in_index-remove_all index [] n k = ground arith
in_index-remove_all index (b ∷ bs) n k =
    let index' = remove_from_node_index index b.node_id b.conversation_key in
    ground (
      arith,
      in_index-remove_all index' bs n k,
      in_index-remove index b.node_id b.conversation_key n k,
    )

abbrev expires : (ConversationBinding → Bool) → String → Option ConversationBinding → Bool
expires p n none = false
expires p n (some b) = p b && str_eq b.node_id n

-- Under distinct keys, the bindings of a key that pass a test are the one that the key leads to.
any-values :
    (p : ConversationBinding → Bool) (m : Map ConversationBinding) (n k : String)
    → Unique m
    → All (λ e. e.1.conversation_key ≡ e.0) m
    → any (is_binding_of n k) (keep p (values m)) ≡ expires p n (lookup k m)
unfolding values lookup Unique
any-values p [] n k u h = refl
any-values p ((j, b) ∷ m) n k u h = elim (Bool-cases (str_eq j k)) [
  | inl same ↦
      let gone : lookup k m ≡ none = subst (λ i. lookup i m ≡ none) ((eq_iff j k).0 same) u.0 in
      let rest : any (is_binding_of n k) (keep p (values m)) ≡ false =
        (any-values p m n k u.1 h.1 ∙ ap (expires p n) gone) in
      ground (arith, same, h.0, rest, eq_iff j k, eq_refl k)
  | inr other ↦ ground (arith, other, h.0, any-values p m n k u.1 h.1)
]

swept-bound :
    (s : ConversationStore) (now : ℕ) (n k : String) (o : Option ConversationBinding)
    → lookup k s.bindings ≡ o
    → IsIndexed s
    → (in_index s.node_index n k && not (expires (is_expired s now) n (lookup k s.bindings)))
      ≡ bound_to n (lookup k (swept s now).bindings)
swept-bound s now n k none e v = ground (
  arith,
  e,
  v.agrees n k,
  lookup-map_filter (λ key b. not (is_expired s now b)) k s.bindings v.unique,
)
swept-bound s now n k (some b) e v = ground (
  arith,
  e,
  v.agrees n k,
  lookup-map_filter (λ key b. not (is_expired s now b)) k s.bindings v.unique,
)

sweep-IsIndexed : (s : ConversationStore) (now : ℕ) → IsIndexed s → IsIndexed (sweep s now).0
unfolding sweep
sweep-IsIndexed s now v =
    let p : ConversationBinding → Bool = is_expired s now in
    let own = All-of_lookup OwnKey s.bindings v.unique (Each-lookup OwnKey s.bindings v.own_keys) in
    warning-IsIndexed (swept s now) (record {
      unique = map_filter-Unique _ s.bindings v.unique;
      own_keys = filter-OwnKey _ s.bindings v.unique v.own_keys;
      agrees = λ n k.
          in_index-remove_all s.node_index (keep p (values s.bindings)) n k
          ∙ ap (λ b. in_index s.node_index n k && not b) (any-values p s.bindings n k v.unique own)
          ∙ swept-bound s now n k (lookup k s.bindings) refl v;
    })

step-IsIndexed : (s : ConversationStore) (c : Call) → IsIndexed s → IsIndexed (step s c)
unfolding step clear update_config lookup Unique
step-IsIndexed s (binds key node_id now) v = bind-IsIndexed s key node_id now v
step-IsIndexed s (removes node_id) v = remove_node-IsIndexed s node_id v
step-IsIndexed s (sweeps now) v = sweep-IsIndexed s now v
step-IsIndexed s clears v = record { unique = tt; own_keys = λ k. tt; agrees = λ n k. refl }
step-IsIndexed s (configures config) v = record {
  unique = v.unique;
  own_keys = v.own_keys;
  agrees = v.agrees;
}

run_lem : (s : ConversationStore) (calls : List Call) → IsIndexed s → IsIndexed (run s calls)
unfolding run
run_lem s [] v = v
run_lem s (c ∷ calls) v = run_lem (step s c) calls (step-IsIndexed s c v)

-- After any calls on a new store that do not restore a snapshot, every binding has its own key, once,
-- and the reverse index lists a key under the node that it is bound to and under no other.
pub conversations_run-IsIndexed :
    (config : ConversationStoreConfig) (calls : List Call) → IsIndexed (run (init config) calls)
conversations_run-IsIndexed config calls = run_lem (init config) calls (init-IsIndexed config)

warning_bindings : (s : ConversationStore) → (check_capacity_warning s).0.bindings ≡ s.bindings
unfolding check_capacity_warning
warning_bindings s = ground arith

-- In a store whose index agrees with its bindings, the removal of a node by the index removes the
-- conversations that are bound to the node and leaves all others as they were.
pub remove_node_lem :
    (s : ConversationStore) (node_id k : String)
    → IsIndexed s
    → lookup k (remove_node s node_id).0.bindings
      ≡ (if bound_to node_id (lookup k s.bindings) then none else lookup k s.bindings)
unfolding remove_node remove_keys
remove_node_lem s node_id k v = go (lookup node_id s.node_index) refl
  where
    none_listed :
        (ks : Option (List String))
        → lookup node_id s.node_index ≡ ks
        → keys_of ks ≡ []
        → lookup k s.bindings
          ≡ (if bound_to node_id (lookup k s.bindings) then none else lookup k s.bindings)
    none_listed ks e e' = ground (arith, v.agrees node_id k, e, e')

    go :
        (o : Option (List String))
        → lookup node_id s.node_index ≡ o
        → lookup k (remove_keys s node_id o).0.bindings
          ≡ (if bound_to node_id (lookup k s.bindings) then none else lookup k s.bindings)
    go none e = none_listed none e refl
    go (some []) e = none_listed (some []) e refl
    go (some (j ∷ ks)) e =
        ap (lookup k) (warning_bindings (drop_node s node_id (j ∷ ks)))
        ∙ lookup-map_filter (λ key b. not (in_set key (j ∷ ks))) k s.bindings v.unique
        ∙ kept (lookup k s.bindings) (ap (in_set k) (sym (ap keys_of e)) ∙ v.agrees node_id k)
      where
        kept :
            (o : Option ConversationBinding)
            → in_set k (j ∷ ks) ≡ bound_to node_id o
            → elim o [ none ↦ none | some b ↦ if not (in_set k (j ∷ ks)) then some b else none ]
              ≡ (if bound_to node_id o then none else o)
        kept none h = ground arith
        kept (some b) h = ground (arith, h)
