-- ===== src/Gateway/Delivery.antt =====
-- packages/gateway/src/delivery-tracker.ts. The clock is an argument. A snapshot's
-- `Record<string, PendingMessage[]>` is a list of entries in the order in which they are written;
-- the schema that `fromSnapshot` checks first is a parameter.
pub mod Valid
pub mod Track
pub mod Snapshot
mod Tests
use templar.Prelude.{
  ℕ, ◌+◌, Bool, true, false, not, Option, none, some, List, [], ◌∷◌, String, leb, ltb,
  if◌then◌else◌, str_eq,
}
use templar.Prelude.Maps.{Map, lookup, insert, erase, has, size, values}
use templar.Prelude.Sort.{sort}
use templar.Gateway.Lanes.{LaneMessage}

pub record PendingMessage : Type 0 where
  pub message_id : String
  pub node_id : String
  pub sent_at : ℕ
  pub message : LaneMessage

pub record DeliveryTracker : Type 0 where
  pub max_pending : ℕ
  pub pending : Map (Map PendingMessage)

abbrev pub init : ℕ → DeliveryTracker
init max_pending = record { max_pending = max_pending; pending = [] }

abbrev pub or_empty : Option (Map PendingMessage) → Map PendingMessage
or_empty none = []
or_empty (some m) = m

-- Evicts the first key, unless it is the empty text, which counts as absent.
pub evict_oldest : Map PendingMessage → Map PendingMessage
evict_oldest [] = []
evict_oldest ((id, p) ∷ m) = if str_eq id "" then (id, p) ∷ m else erase id ((id, p) ∷ m)

-- The map of a node after `track`.
unfoldable pub track_in : ℕ → Map PendingMessage → String → LaneMessage → ℕ → Map PendingMessage
track_in max_pending m node_id message now =
    insert message.id
      (record { message_id = message.id; node_id = node_id; sent_at = now; message = message })
      (if leb max_pending (size m) then evict_oldest m else m)

unfoldable pub track : DeliveryTracker → String → LaneMessage → ℕ → DeliveryTracker
unfolding track_in evict_oldest
track t node_id message now = record t {
  pending =
      insert node_id
        (track_in t.max_pending (or_empty (lookup node_id t.pending)) node_id message now)
        t.pending;
}

-- The tracker when the map of a node has changed to `m`: an empty map is dropped.
pub keep_nonempty : DeliveryTracker → String → Map PendingMessage → DeliveryTracker
keep_nonempty t node_id [] = record t { pending = erase node_id t.pending }
keep_nonempty t node_id (e ∷ m) = record t { pending = insert node_id (e ∷ m) t.pending }

ack_in : DeliveryTracker → String → String → Option (Map PendingMessage) → DeliveryTracker × Bool
ack_in t node_id message_id none = (t, false)
ack_in t node_id message_id (some m) =
    (keep_nonempty t node_id (erase message_id m), has message_id m)

pub ack : DeliveryTracker → String → String → DeliveryTracker × Bool
unfolding ack_in keep_nonempty
ack t node_id message_id = ack_in t node_id message_id (lookup node_id t.pending)

abbrev pub sent_before : PendingMessage → PendingMessage → Bool
sent_before a b = leb a.sent_at b.sent_at

pub unacked : DeliveryTracker → String → List PendingMessage
unacked t node_id = sort sent_before (values (or_empty (lookup node_id t.pending)))

pub pending_count : DeliveryTracker → String → ℕ
pending_count t node_id = size (or_empty (lookup node_id t.pending))

pub remove_node : DeliveryTracker → String → DeliveryTracker
remove_node t node_id = record t { pending = erase node_id t.pending }

pub clear : DeliveryTracker → DeliveryTracker
clear t = record t { pending = [] }

pub record DeliveryTrackerSnapshot : Type 0 where
  pub version : ℕ
  pub pending : Map (List PendingMessage)
  pub captured_at : ℕ

pub lists_of : Map (Map PendingMessage) → Map (List PendingMessage)
lists_of [] = []
lists_of ((node_id, m) ∷ pending) = (node_id, values m) ∷ lists_of pending

pub to_snapshot : DeliveryTracker → ℕ → DeliveryTrackerSnapshot
unfolding lists_of
to_snapshot t now = record { version = 1; pending = lists_of t.pending; captured_at = now }

-- The inner loop of `fromSnapshot`.
pub map_of : Map PendingMessage → List PendingMessage → Map PendingMessage
map_of m [] = m
map_of m (p ∷ ps) = map_of (insert p.message_id p m) ps

pub set_nonempty : String → Map PendingMessage → Map (Map PendingMessage) → Map (Map PendingMessage)
set_nonempty node_id [] pending = pending
set_nonempty node_id (e ∷ m) pending = insert node_id (e ∷ m) pending

-- The outer loop: a node with no message is left out.
pub restore : Map (Map PendingMessage) → Map (List PendingMessage) → Map (Map PendingMessage)
restore pending [] = pending
restore pending ((node_id, ps) ∷ entries) =
    restore (set_nonempty node_id (map_of [] ps) pending) entries

-- `none` is the ZodError of a snapshot that the schema refuses.
pub from_snapshot :
    (DeliveryTrackerSnapshot → Bool)
    → DeliveryTracker
    → DeliveryTrackerSnapshot
    → Option DeliveryTracker
unfolding restore map_of
from_snapshot schema t snapshot =
    if schema snapshot then some (record t { pending = restore [] snapshot.pending }) else none
