-- ===== src/Gateway/Delivery/Track.antt =====
-- What can be found in packages/gateway/src/delivery-tracker.ts after a call.
use mathlib.Core.List.{Perm}
use templar.Prelude.{
  ℕ, ◌≡◌, refl, ◌≢◌, inl, inr, true, false, ◌&&◌, Bool-cases, Option, none, some, Option-cases, [],
  ◌∷◌, String, arith, leb, if◌then◌else◌, str_eq, eq_iff,
}
use templar.Prelude.Maps.{Map, lookup, erase, size, values, lookup-insert, lookup-erase, has-lookup}
use templar.Prelude.Sort.{IsSorted, sort-perm, sort-IsSorted}
use templar.Gateway.Lanes.{LaneMessage}
use templar.Gateway.Delivery.{
  DeliveryTracker, PendingMessage, or_empty, evict_oldest, track_in, track, keep_nonempty, ack,
  unacked, sent_before,
}

-- The pending message of a node with an id.
abbrev pub find : DeliveryTracker → String → String → Option PendingMessage
find t node_id id = lookup id (or_empty (lookup node_id t.pending))

-- The message that `track` evicts: the oldest entry of a full node.
abbrev first_id : Map PendingMessage → Option String
first_id [] = none
first_id ((id, p) ∷ m) = some id

abbrev pub victim : DeliveryTracker → String → Option String
victim t node_id =
    let m = or_empty (lookup node_id t.pending) in
    if leb t.max_pending (size m) then first_id m else none

lookup-keep_nonempty :
    (t : DeliveryTracker) (node_id other id : String) (m : Map PendingMessage)
    → lookup id (or_empty (lookup other (keep_nonempty t node_id m).pending))
      ≡ (if str_eq node_id other then lookup id m else find t other id)
unfolding keep_nonempty lookup
lookup-keep_nonempty t node_id other id [] = ground (arith, lookup-erase node_id other t.pending)
lookup-keep_nonempty t node_id other id (e ∷ m) =
    ground (arith, lookup-insert node_id other (e ∷ m) t.pending)

-- An acknowledgement says whether the message was pending, and removes that message and no other.
pub ack_lem :
    (t : DeliveryTracker) (node_id message_id other id : String)
    → ((ack t node_id message_id).1
        ≡ elim (find t node_id message_id) [ none ↦ false | some _ ↦ true ])
      × (find (ack t node_id message_id).0 other id
          ≡ (if str_eq node_id other && str_eq message_id id then none else find t other id))
unfolding ack lookup
ack_lem t node_id message_id other id = elim (Option-cases (lookup node_id t.pending)) [
  | inl e ↦ ground (arith, e, eq_iff node_id other)
  | inr (m, e) ↦ ground (
    arith,
    e,
    eq_iff node_id other,
    has-lookup message_id m,
    lookup-keep_nonempty t node_id other id (erase message_id m),
    lookup-erase message_id id m,
  )
]

lookup-evict_oldest :
    (id : String) (m : Map PendingMessage)
    → first_id m ≢ some id
    → lookup id (evict_oldest m) ≡ lookup id m
unfolding evict_oldest
lookup-evict_oldest id [] h = refl
lookup-evict_oldest id ((j, p) ∷ m) h = ground (arith, eq_iff j id, lookup-erase j id ((j, p) ∷ m))

lookup-track_in :
    (cap : ℕ) (m : Map PendingMessage) (node_id : String) (message : LaneMessage) (now : ℕ)
    (id : String)
    → (if leb cap (size m) then first_id m else none) ≢ some id
    → lookup id (track_in cap m node_id message now) ≡ (
        if str_eq message.id id
        then some (record {
          message_id = message.id;
          node_id = node_id;
          sent_at = now;
          message = message;
        })
        else lookup id m)
unfolding track_in
lookup-track_in cap m node_id message now id h =
    let p : PendingMessage = record {
      message_id = message.id;
      node_id = node_id;
      sent_at = now;
      message = message;
    } in
    elim (Bool-cases (leb cap (size m))) [
      | inl full ↦ rw full (
          ground (
            arith,
            lookup-insert message.id id p (evict_oldest m),
            lookup-evict_oldest id m (rw full at h),
          ))
      | inr room ↦ rw room (lookup-insert message.id id p m)
    ]

-- Tracking a message stores it as it was sent; all that can be found under another id than that
-- of the victim, the oldest message of the node if the node is full, is otherwise as it was.
pub find-track :
    (t : DeliveryTracker) (node_id : String) (message : LaneMessage) (now : ℕ) (other id : String)
    → victim t node_id ≢ some id
    → find (track t node_id message now) other id ≡ (
        if str_eq node_id other && str_eq message.id id
        then some (record {
          message_id = message.id;
          node_id = node_id;
          sent_at = now;
          message = message;
        })
        else find t other id)
unfolding track
find-track t node_id message now other id kept =
    let m = or_empty (lookup node_id t.pending) in
    ground (
      arith,
      eq_iff node_id other,
      lookup-insert node_id other (track_in t.max_pending m node_id message now) t.pending,
      lookup-track_in t.max_pending m node_id message now id,
    )

sent_total : (a b : PendingMessage) → sent_before a b ≡ false → sent_before b a ≡ true
sent_total a b h = ground arith

sent_trans :
    (a b c : PendingMessage)
    → sent_before a b ≡ true
    → sent_before b c ≡ true
    → sent_before a c ≡ true
sent_trans a b c h k = ground arith

-- The unacknowledged messages of a node are its pending messages, each once, in the order of
-- their times.
pub unacked-IsSorted :
    (t : DeliveryTracker) (node_id : String)
    → Perm (unacked t node_id) (values (or_empty (lookup node_id t.pending)))
      × IsSorted sent_before (unacked t node_id)
unfolding unacked
unacked-IsSorted t node_id = (
  sort-perm sent_before (values (or_empty (lookup node_id t.pending))),
  sort-IsSorted sent_before sent_total sent_trans (values (or_empty (lookup node_id t.pending))),
)
