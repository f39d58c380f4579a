-- ===== src/Gateway/Conversations/Index.antt =====
-- The reverse index of packages/gateway/src/conversations/conversation-store.ts.
use templar.Prelude.{
  ◌≡◌, Bool, false, not, ◌&&◌, ◌||◌, Option, none, some, Option-cases, List, [], ◌∷◌, ◌++◌, String,
  arith, inl, inr, if◌then◌else◌, str_eq, eq_iff,
}
use templar.Prelude.Maps.{Map, lookup, lookup-insert, lookup-erase}
use templar.Gateway.Conversations.{
  ConversationBinding, in_set, add_key, add_to_node_index, set_keys, without_key, remove_key,
  remove_from_node_index,
}

abbrev pub keys_of : Option (List String) → List String
keys_of none = []
keys_of (some ks) = ks

-- Whether the index lists a key under a node.
abbrev pub in_index : Map (List String) → String → String → Bool
in_index index n k = in_set k (keys_of (lookup n index))

abbrev pub bound_to : String → Option ConversationBinding → Bool
bound_to n none = false
bound_to n (some b) = str_eq b.node_id n

in_set-snoc :
    (k j : String) (ks : List String) → in_set k (ks ++ j ∷ []) ≡ (in_set k ks || str_eq j k)
in_set-snoc k j [] = ground arith
in_set-snoc k j (x ∷ ks) = ground (arith, in_set-snoc k j ks)

in_set-without_key :
    (k j : String) (ks : List String)
    → in_set k (without_key j ks) ≡ (in_set k ks && not (str_eq j k))
in_set-without_key k j [] = ground arith
in_set-without_key k j (x ∷ ks) =
    ground (arith, eq_iff x j, eq_iff x k, eq_iff j k, in_set-without_key k j ks)

pub in_index-add :
    (index : Map (List String)) (node_id key n k : String)
    → in_index (add_to_node_index index node_id key) n k
      ≡ (in_index index n k || (str_eq node_id n && str_eq key k))
unfolding add_to_node_index add_key
in_index-add index node_id key n k = elim (Option-cases (lookup node_id index)) [
  | inl e ↦ ground (arith, e, eq_iff node_id n, lookup-insert node_id n (key ∷ []) index)
  | inr (ks, e) ↦ ground (
    arith,
    e,
    eq_iff node_id n,
    eq_iff key k,
    in_set-snoc k key ks,
    lookup-insert node_id n (ks ++ key ∷ []) index,
  )
]

pub in_index-set_keys :
    (index : Map (List String)) (node_id n k : String) (ks : List String)
    → in_index (set_keys index node_id ks) n k
      ≡ (if str_eq node_id n then in_set k ks else in_index index n k)
unfolding set_keys
in_index-set_keys index node_id n k [] = ground (arith, lookup-erase node_id n index)
in_index-set_keys index node_id n k (j ∷ ks) =
    ground (arith, lookup-insert node_id n (j ∷ ks) index)

pub in_index-remove :
    (index : Map (List String)) (node_id key n k : String)
    → in_index (remove_from_node_index index node_id key) n k
      ≡ (in_index index n k && not (str_eq node_id n && str_eq key k))
unfolding remove_from_node_index remove_key
in_index-remove index node_id key n k = elim (Option-cases (lookup node_id index)) [
  | inl e ↦ ground (arith, e, eq_iff node_id n)
  | inr (ks, e) ↦ ground (
    arith,
    e,
    eq_iff node_id n,
    eq_iff key k,
    in_set-without_key k key ks,
    in_index-set_keys index node_id n k (without_key key ks),
  )
]
