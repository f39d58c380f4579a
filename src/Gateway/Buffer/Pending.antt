-- ===== src/Gateway/Buffer/Pending.antt =====
-- What the buffer of packages/gateway/src/queue/message-buffer.ts promises: the pending messages
-- in the order of arrival, at most `capacity` of them. The oldest makes room and is reported;
-- an interrupt passes by; a drain hands out the lanes by priority, each in the order of arrival.
use templar.Prelude.{
  ℕ, Bool, false, Option, some, List, [], ◌∷◌, ◌++◌, leb, if◌then◌else◌, length, keep,
}
use templar.Gateway.Lanes.{
  Lane, QueuedLane, LaneMessage, steer, collect, followup, queued, interrupt, same_lane,
}
use templar.Gateway.Buffer.{Event, interrupted, overflowed}

abbrev pub Pending : Type 0
Pending = List LaneMessage

abbrev pub goes_to : QueuedLane → Lane → Bool
goes_to l interrupt = false
goes_to l (queued k) = same_lane l k

abbrev pub lane_of : QueuedLane → Pending → Pending
lane_of l = keep (λ m. goes_to l m.lane)

abbrev pub push_full : Pending → LaneMessage → Pending × List Event
push_full [] m = (m ∷ [], [])
push_full (old ∷ ms) m = (ms ++ m ∷ [], overflowed old ∷ [])

abbrev pub on_lane : ℕ → Pending → LaneMessage → Lane → Pending × List Event
on_lane capacity ms m interrupt = (ms, interrupted m ∷ [])
on_lane capacity ms m (queued l) =
    if leb capacity (length ms) then push_full ms m else (ms ++ m ∷ [], [])

abbrev pub dispatch : ℕ → Pending → LaneMessage → Pending × List Event
dispatch capacity ms m = on_lane capacity ms m m.lane

abbrev pub drained : Pending → List LaneMessage
drained ms = lane_of steer ms ++ (lane_of collect ms ++ lane_of followup ms)

pub data Call : Type 0 where
  dispatches : LaneMessage → Call
  drains : Call
  sizes : QueuedLane → Call
  totals : Call

pub data Reply : Type 0 where
  events : List Event → Reply
  result : Option (List LaneMessage) → Reply
  number : ℕ → Reply

unfoldable pub run : ℕ → Pending → List Call → List Reply
run capacity ms [] = []
run capacity ms (dispatches m ∷ calls) =
    let (ms', es) = dispatch capacity ms m in events es ∷ run capacity ms' calls
run capacity ms (drains ∷ calls) = result (some (drained ms)) ∷ run capacity [] calls
run capacity ms (sizes l ∷ calls) = number (length (lane_of l ms)) ∷ run capacity ms calls
run capacity ms (totals ∷ calls) = number (length ms) ∷ run capacity ms calls
