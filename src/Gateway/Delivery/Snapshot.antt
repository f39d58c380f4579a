-- ===== src/Gateway/Delivery/Snapshot.antt =====
-- The snapshots of packages/gateway/src/delivery-tracker.ts.
use mathlib.Core.List.{append-nil, append_assoc}
use templar.Prelude.{
  ℕ, ◌≡◌, refl, sym, ap, subst, ◌∙◌, Bool, true, some, [], ◌∷◌, ◌++◌, String, All,
}
use templar.Prelude.Maps.{
  Map, insert, values, Unique, All-of_lookup, insert_absent, lookup-append_absent,
}
use templar.Gateway.Delivery.{
  DeliveryTracker, DeliveryTrackerSnapshot, PendingMessage, lists_of, to_snapshot, map_of, restore,
  from_snapshot, set_nonempty,
}
use templar.Gateway.Delivery.Valid.{IsValid, Keyed-lookup, Listed-lookup}

map_of-values :
    (acc m : Map PendingMessage)
    → Unique (acc ++ m)
    → All (λ e. e.1.message_id ≡ e.0) m
    → map_of acc (values m) ≡ acc ++ m
unfolding map_of values
map_of-values acc [] u h = sym (append-nil acc)
map_of-values acc ((id, p) ∷ m) u h =
    let step : insert p.message_id p acc ≡ acc ++ (id, p) ∷ [] =
      (ap (λ k. insert k p acc) h.0 ∙ insert_absent id p acc (lookup-append_absent id p acc m u)) in
    let assoc = append_assoc acc ((id, p) ∷ []) m in
    ap (λ x. map_of x (values m)) step
    ∙ map_of-values (acc ++ (id, p) ∷ []) m (subst Unique (sym assoc) u) h.1
    ∙ assoc

set_nonempty-insert :
    (node_id : String) (m : Map PendingMessage) (pending : Map (Map PendingMessage))
    → (m ≡ [] → ⊥)
    → set_nonempty node_id m pending ≡ insert node_id m pending
unfolding set_nonempty
set_nonempty-insert node_id [] pending h = absurd (h refl)
set_nonempty-insert node_id (e ∷ m) pending h = refl

abbrev IsGood : String → Map PendingMessage → Type 0
IsGood node_id m = (map_of [] (values m) ≡ m) × (m ≡ [] → ⊥)

restore-lists_of :
    (acc pending : Map (Map PendingMessage))
    → Unique (acc ++ pending)
    → All (λ e. IsGood e.0 e.1) pending
    → restore acc (lists_of pending) ≡ acc ++ pending
unfolding restore lists_of
restore-lists_of acc [] u h = sym (append-nil acc)
restore-lists_of acc ((node_id, m) ∷ pending) u h =
    let assoc = append_assoc acc ((node_id, m) ∷ []) pending in
    ap (λ x. restore (set_nonempty node_id x acc) (lists_of pending)) h.0.0
    ∙ ap (λ x. restore x (lists_of pending))
        (set_nonempty-insert node_id m acc h.0.1
          ∙ insert_absent node_id m acc (lookup-append_absent node_id m acc pending u))
    ∙ restore-lists_of (acc ++ (node_id, m) ∷ []) pending (subst Unique (sym assoc) u) h.1
    ∙ assoc

-- A valid tracker is restored from its own snapshot, if the schema accepts that, by any tracker
-- with the same maximum, whatever it held.
pub from_snapshot-to_snapshot :
    (schema : DeliveryTrackerSnapshot → Bool) (t t' : DeliveryTracker) (now : ℕ)
    → IsValid t
    → t'.max_pending ≡ t.max_pending
    → schema (to_snapshot t now) ≡ true
    → from_snapshot schema t' (to_snapshot t now) ≡ some t
unfolding from_snapshot to_snapshot
from_snapshot-to_snapshot schema t t' now v em es = rw es (
    ap some
      (λ i. record { max_pending = em i; pending = restore-lists_of [] t.pending v.nodes good i }))
  where
    good : All (λ e. IsGood e.0 e.1) t.pending
    good = All-of_lookup IsGood t.pending v.nodes (λ node_id m e.
        let (vm, ne) = Listed-lookup t v node_id m e in
        (
          map_of-values [] m vm.unique (
              All-of_lookup (λ id p. p.message_id ≡ id) m vm.unique
                (λ id p e'. (Keyed-lookup vm id p e').0)),
          ne,
        ))
