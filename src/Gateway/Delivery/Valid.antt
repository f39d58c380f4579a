-- ===== src/Gateway/Delivery/Valid.antt =====
-- The invariant of packages/gateway/src/delivery-tracker.ts and the calls that keep it.
use Prim.Native.Nat.{max}
use templar.Prelude.{
  ℕ, ◌+◌, ◌-◌, ◌≤◌, ◌≡◌, refl, ◌∙◌, ◌≢◌, inl, inr, Bool-cases, some, Option-cases, List, [], ◌∷◌,
  String, arith, leb, leb→le, not-leb→lt, str_eq, eq_iff, eq_refl, All,
}
use templar.Prelude.Maps.{
  Map, lookup, insert, erase, size, Unique, Each, Each-of_lookup, Each-lookup, lookup-insert,
  lookup-erase, size-erase, size-erase-le, insert-Unique, erase-Unique, size-insert-le,
  insert-ne-nil,
}
use templar.Gateway.Lanes.{LaneMessage}
use templar.Gateway.Delivery.{
  DeliveryTracker, PendingMessage, init, or_empty, evict_oldest, track_in, track, keep_nonempty,
  ack_in, ack, remove_node, clear,
}

-- A message under its own id, which is not empty, and for its node.
abbrev pub Keyed : String → String → PendingMessage → Type 0
Keyed node_id id p = (p.message_id ≡ id) × (p.node_id ≡ node_id) × (id ≢ "")

-- The messages of one node.
pub record IsNodeMap (cap : ℕ) (node_id : String) (m : Map PendingMessage) : Type 0 where
  pub unique : Unique m
  pub keyed : Each (Keyed node_id) m
  pub bounded : size m ≤ max 1 cap

abbrev pub Listed : ℕ → String → Map PendingMessage → Type 0
Listed cap node_id m = IsNodeMap cap node_id m × (m ≢ [])

-- Every node has a valid map, which is not empty.
pub record IsValid (t : DeliveryTracker) : Type 0 where
  pub nodes : Unique t.pending
  pub each : Each (Listed t.max_pending) t.pending

module _ {cap : ℕ} {node_id : String} {m : Map PendingMessage} where
  pub Keyed-lookup :
      IsNodeMap cap node_id m
      → (id : String) (p : PendingMessage) → lookup id m ≡ some p
      → Keyed node_id id p
  Keyed-lookup v = Each-lookup (Keyed node_id) m v.keyed

pub Listed-lookup :
    (t : DeliveryTracker)
    → IsValid t
    → (node_id : String) (m : Map PendingMessage) → lookup node_id t.pending ≡ some m
    → Listed t.max_pending node_id m
Listed-lookup t v = Each-lookup (Listed t.max_pending) t.pending v.each

empty-IsNodeMap : (cap : ℕ) (node_id : String) → IsNodeMap cap node_id []
unfolding Unique lookup
empty-IsNodeMap cap node_id = record { unique = tt; keyed = λ id. tt; bounded = omega arith }

or_empty-IsNodeMap :
    (t : DeliveryTracker) (node_id : String)
    → IsValid t
    → IsNodeMap t.max_pending node_id (or_empty (lookup node_id t.pending))
or_empty-IsNodeMap t node_id v = elim (Option-cases (lookup node_id t.pending)) [
  | inl e ↦ rw e (empty-IsNodeMap t.max_pending node_id)
  | inr (m, e) ↦ rw e (Listed-lookup t v node_id m e).0
]

erase-IsNodeMap :
    (cap : ℕ) (node_id id : String) (m : Map PendingMessage)
    → IsNodeMap cap node_id m
    → IsNodeMap cap node_id (erase id m)
erase-IsNodeMap cap node_id id m v = record {
  unique = erase-Unique id m v.unique;
  keyed =
      Each-of_lookup (Keyed node_id) (erase id m)
        (λ j p e. ground (arith, lookup-erase id j m, Keyed-lookup v j p));
  bounded = omega (arith, size-erase-le id m);
}

-- The first entry of a valid map has a proper key, so it is evicted.
evict_oldest-erase :
    (cap : ℕ) (node_id : String) (id : String) (p : PendingMessage) (m : Map PendingMessage)
    → IsNodeMap cap node_id ((id, p) ∷ m)
    → evict_oldest ((id, p) ∷ m) ≡ erase id ((id, p) ∷ m)
unfolding evict_oldest lookup
evict_oldest-erase cap node_id id p m v =
    let found : lookup id ((id, p) ∷ m) ≡ some p = rw (eq_refl id) in
    ground (arith, Keyed-lookup v id p found, eq_iff id "")

evict_oldest-room :
    (cap : ℕ) (node_id : String) (m : Map PendingMessage)
    → IsNodeMap cap node_id m
    → IsNodeMap cap node_id (evict_oldest m) × (size (evict_oldest m) ≤ size m - 1)
unfolding evict_oldest lookup
evict_oldest-room cap node_id [] v = (v, omega arith)
evict_oldest-room cap node_id ((id, p) ∷ m) v =
    let found : lookup id ((id, p) ∷ m) ≡ some p = rw (eq_refl id) in
    rw (evict_oldest-erase cap node_id id p m v) (
      erase-IsNodeMap cap node_id id ((id, p) ∷ m) v,
      omega (arith, size-erase id p ((id, p) ∷ m) v.unique found),
    )

insert-IsNodeMap :
    (cap : ℕ) (node_id : String) (p : PendingMessage) (m : Map PendingMessage)
    → p.message_id ≢ ""
    → p.node_id ≡ node_id
    → size m + 1 ≤ max 1 cap
    → IsNodeMap cap node_id m
    → IsNodeMap cap node_id (insert p.message_id p m)
insert-IsNodeMap cap node_id p m ne en room v = record {
  unique = insert-Unique p.message_id p m v.unique;
  keyed = Each-of_lookup (Keyed node_id) (insert p.message_id p m) (λ id q e.
      ground
        (arith, lookup-insert p.message_id id p m, eq_iff p.message_id id, Keyed-lookup v id q));
  bounded = omega (arith, size-insert-le p.message_id p m);
}

track_in-IsNodeMap :
    (cap : ℕ) (node_id : String) (m : Map PendingMessage) (message : LaneMessage) (now : ℕ)
    → message.id ≢ ""
    → IsNodeMap cap node_id m
    → IsNodeMap cap node_id (track_in cap m node_id message now)
unfolding track_in
track_in-IsNodeMap cap node_id m message now ne v = elim (Bool-cases (leb cap (size m))) [
  | inl full ↦
      let (v', room) = evict_oldest-room cap node_id m v in
      rw full (
        insert-IsNodeMap cap node_id _ (evict_oldest m) ne refl
          (omega (arith, leb→le cap (size m) full, v.bounded)) v')
  | inr room ↦
      rw room
        (insert-IsNodeMap cap node_id _ m ne refl (omega (arith, not-leb→lt cap (size m) room)) v)
]

erase-IsValid :
    (t : DeliveryTracker) (node_id : String) → IsValid t → IsValid (remove_node t node_id)
unfolding remove_node
erase-IsValid t node_id v = record {
  nodes = erase-Unique node_id t.pending v.nodes;
  each =
      Each-of_lookup (Listed t.max_pending) (erase node_id t.pending)
        (λ j m e. Listed-lookup t v j m (ground (arith, lookup-erase node_id j t.pending)));
}

insert-IsValid :
    (t : DeliveryTracker) (node_id : String) (m : Map PendingMessage)
    → IsNodeMap t.max_pending node_id m
    → m ≢ []
    → IsValid t
    → IsValid (record t { pending = insert node_id m t.pending })
insert-IsValid t node_id m vm ne v = record {
  nodes = insert-Unique node_id m t.pending v.nodes;
  each = Each-of_lookup (Listed t.max_pending) (insert node_id m t.pending) (λ j m' e.
      elim (Bool-cases (str_eq node_id j)) [
        | inl same ↦
            let e' : m ≡ m' = ground (arith, lookup-insert node_id j m t.pending) in
            let ej : node_id ≡ j = (eq_iff node_id j).0 same in rw (← ej, ← e') (vm, ne)
        | inr other ↦ Listed-lookup t v j m' (ground (arith, lookup-insert node_id j m t.pending))
      ]);
}

pub init-IsValid : (max_pending : ℕ) → IsValid (init max_pending)
unfolding Unique lookup
init-IsValid max_pending = record { nodes = tt; each = λ node_id. tt }

-- Tracking a message with an id keeps the invariant.
pub track-IsValid :
    (t : DeliveryTracker) (node_id : String) (message : LaneMessage) (now : ℕ)
    → message.id ≢ ""
    → IsValid t
    → IsValid (track t node_id message now)
unfolding track
track-IsValid t node_id message now ne v =
    insert-IsValid t node_id _
      (track_in-IsNodeMap t.max_pending node_id _ message now ne (or_empty-IsNodeMap t node_id v))
      (insert-ne-nil message.id _ _) v

keep_nonempty-IsValid :
    (t : DeliveryTracker) (node_id : String) (m : Map PendingMessage)
    → IsNodeMap t.max_pending node_id m
    → IsValid t
    → IsValid (keep_nonempty t node_id m)
unfolding keep_nonempty remove_node
keep_nonempty-IsValid t node_id [] vm v = erase-IsValid t node_id v
keep_nonempty-IsValid t node_id (e ∷ m) vm v = insert-IsValid t node_id (e ∷ m) vm (λ e. cc) v

-- An acknowledgement keeps the invariant.
pub ack-IsValid :
    (t : DeliveryTracker) (node_id message_id : String)
    → IsValid t
    → IsValid (ack t node_id message_id).0
unfolding ack
ack-IsValid t node_id message_id v = elim (Option-cases (lookup node_id t.pending)) [
  | inl e ↦ rw (e, ack) v
  | inr (m, e) ↦
      rw (e, ack)
        (keep_nonempty-IsValid t node_id (erase message_id m)
          (erase-IsNodeMap t.max_pending node_id message_id m (Listed-lookup t v node_id m e).0) v)
]

pub data Call : Type 0 where
  tracks : (node_id : String) (message : LaneMessage) (now : ℕ) → Call
  acks : (node_id message_id : String) → Call
  removes : String → Call
  clears : Call

unfoldable pub step : DeliveryTracker → Call → DeliveryTracker
step t (tracks node_id message now) = track t node_id message now
step t (acks node_id message_id) = (ack t node_id message_id).0
step t (removes node_id) = remove_node t node_id
step t clears = clear t

unfoldable pub run : DeliveryTracker → List Call → DeliveryTracker
run t [] = t
run t (c ∷ calls) = run (step t c) calls

-- A message that is tracked has an id.
abbrev pub HasId : Call → Type 0
HasId (tracks node_id message now) = message.id ≢ ""
HasId _ = Unit

step-IsValid : (t : DeliveryTracker) (c : Call) → HasId c → IsValid t → IsValid (step t c)
unfolding step clear
step-IsValid t (tracks node_id message now) h v = track-IsValid t node_id message now h v
step-IsValid t (acks node_id message_id) h v = ack-IsValid t node_id message_id v
step-IsValid t (removes node_id) h v = erase-IsValid t node_id v
step-IsValid t clears h v = init-IsValid t.max_pending

step-max : (t : DeliveryTracker) (c : Call) → (step t c).max_pending ≡ t.max_pending
unfolding step track ack ack_in keep_nonempty remove_node clear
step-max t (tracks node_id message now) = refl
step-max t (acks node_id message_id) = ground arith
step-max t (removes node_id) = refl
step-max t clears = refl

run-IsValid :
    (calls : List Call) (t : DeliveryTracker)
    → All HasId calls
    → IsValid t
    → IsValid (run t calls) × ((run t calls).max_pending ≡ t.max_pending)
unfolding run
run-IsValid [] t h v = (v, refl)
run-IsValid (c ∷ calls) t h v =
    let (v', e) = run-IsValid calls (step t c) h.1 (step-IsValid t c h.0 v) in
    (v', e ∙ step-max t c)

-- After any calls of track with messages that have ids, ack, removeNode and clear on a new tracker, into
-- which no snapshot is restored, every node that is listed has at least one pending message and at most
-- `max_pending` of them (one, if that is 0), each under its own id and for that node.
pub tracker_run-IsValid :
    (max_pending : ℕ) (calls : List Call)
    → All HasId calls
    → IsValid (run (init max_pending) calls)
      × ((run (init max_pending) calls).max_pending ≡ max_pending)
tracker_run-IsValid max_pending calls h =
    run-IsValid calls (init max_pending) h (init-IsValid max_pending)
