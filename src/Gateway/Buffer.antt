-- ===== src/Gateway/Buffer.antt =====
-- packages/gateway/src/queue/message-buffer.ts: the bounded priority buffer of one node. What the
-- emitter is asked to emit is a list of events beside the new state; the handlers are the
-- gateway's. A lane's counter is a natural number: `Holds.counts` shows that the decrement, which
-- stops at 0 here, is made at 1 or more only.
pub mod Order
pub mod Pending
pub mod Holds
pub mod Refine
mod Tests
use templar.Prelude.{
  ℕ, suc, ◌+◌, ◌-◌, Bool, Option, none, some, List, [], ◌∷◌, map, leb, ◌==◌, if◌then◌else◌,
  get_elem?,
}
use templar.Prelude.Sort.{sort}
use templar.Gateway.Fifo
use templar.Gateway.Fifo.{Fifo}
use templar.Gateway.Lanes.{
  Lane, QueuedLane, LaneMessage, steer, collect, followup, queued, interrupt, lane_priority,
}

pub record QueuedEntry : Type 0 where
  pub seq : ℕ
  pub lane : QueuedLane
  pub message : LaneMessage

-- `Record<QueuedLane, number>`
pub record LaneCounts : Type 0 where
  pub steers : ℕ
  pub collects : ℕ
  pub followups : ℕ

abbrev pub zero_counts : LaneCounts
zero_counts = record { steers = 0; collects = 0; followups = 0 }

abbrev pub lane_count : LaneCounts → QueuedLane → ℕ
lane_count c steer = c.steers
lane_count c collect = c.collects
lane_count c followup = c.followups

abbrev pub change : (ℕ → ℕ) → QueuedLane → LaneCounts → LaneCounts
change f steer c = record c { steers = f c.steers }
change f collect c = record c { collects = f c.collects }
change f followup c = record c { followups = f c.followups }

pub record MessageBuffer : Type 0 where
  pub queue : Fifo QueuedEntry
  pub seq : ℕ
  pub counts : LaneCounts

pub data Event : Type 0 where
  interrupted overflowed : LaneMessage → Event

-- The constructor; `none` is the queue's RangeError.
unfoldable pub init : ℕ → Option MessageBuffer
init capacity = elim (Fifo.init {A = QueuedEntry} capacity) [
  | none ↦ none
  | some q ↦ some (record { queue = q; seq = 0; counts = zero_counts })
]

-- The part of `dispatch` after the enqueue.
pub settle :
    MessageBuffer → QueuedLane → Fifo QueuedEntry × Option QueuedEntry → MessageBuffer × List Event
settle b lane (q, none) =
    (record { queue = q; seq = b.seq + 1; counts = change (λ n. n + 1) lane b.counts }, [])
settle b lane (q, some dropped) = (
  record {
    queue = q;
    seq = b.seq + 1;
    counts = change (λ n. n + 1) lane (change (λ n. n - 1) dropped.lane b.counts);
  },
  overflowed dropped.message ∷ [],
)

enqueue_on : MessageBuffer → LaneMessage → Lane → MessageBuffer × List Event
unfolding settle
enqueue_on b message interrupt = (b, interrupted message ∷ [])
enqueue_on b message (queued lane) =
    settle b lane (Fifo.enqueue b.queue (record { seq = b.seq; lane = lane; message = message }))

pub dispatch : MessageBuffer → LaneMessage → MessageBuffer × List Event
unfolding enqueue_on
dispatch b message = enqueue_on b message message.lane

-- The comparator of `drain`, as the test that it gives no positive number.
abbrev pub before : QueuedEntry → QueuedEntry → Bool
before a b =
    if lane_priority a.lane == lane_priority b.lane
    then leb a.seq b.seq
    else leb (lane_priority a.lane) (lane_priority b.lane)

-- `none` is the TypeError of `e.message` at an `undefined` element.
pub messages : List (Option QueuedEntry) → Option (List QueuedEntry)
messages [] = some []
messages (none ∷ es) = none
messages (some e ∷ es) = elim (messages es) [ none ↦ none | some l ↦ some (e ∷ l) ]

abbrev pub message_of : QueuedEntry → LaneMessage
message_of e = e.message

-- The sort and the `map` at the end of `drain`.
abbrev pub hand_out : Option (List QueuedEntry) → Option (List LaneMessage)
hand_out none = none
hand_out (some l) = some (map message_of (sort before l))

finish :
    MessageBuffer
    → Fifo QueuedEntry × List (Option QueuedEntry)
    → MessageBuffer × Option (List LaneMessage)
unfolding messages
finish b (q, []) = (record b { queue = q }, some [])
finish b (q, e ∷ es) = (record b { queue = q; counts = zero_counts }, hand_out (messages (e ∷ es)))

pub drain : MessageBuffer → MessageBuffer × Option (List LaneMessage)
unfolding finish
drain b = finish b (Fifo.drain b.queue)

pub queue_size : MessageBuffer → QueuedLane → ℕ
queue_size b lane = lane_count b.counts lane

pub total_queued : MessageBuffer → ℕ
total_queued b = b.queue.count
