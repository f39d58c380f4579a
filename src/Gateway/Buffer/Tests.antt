-- ===== src/Gateway/Buffer/Tests.antt =====
-- Runs of packages/gateway/src/queue/message-buffer.ts on a small buffer.
use templar.Prelude.{◌≡◌, refl, none, some, List, [], ◌∷◌, String}
use templar.Gateway.Fifo
use templar.Gateway.Lanes.{Lane, LaneMessage, queued, steer, collect, followup, interrupt}
use templar.Gateway.Buffer.{MessageBuffer, init, zero_counts, interrupted, overflowed}
use templar.Gateway.Buffer.Pending
use templar.Gateway.Buffer.Pending.{
  Call, Reply, dispatches, drains, sizes, totals, events, result, number,
}
use templar.Gateway.Buffer.Refine.{run, buffer_run-init}

abbrev message : String → Lane → LaneMessage
message id lane = record {
  id = id;
  lane = lane;
  channel_id = "general";
  payload = "{}";
  timestamp = 0;
  routing_context = none;
}

abbrev first_followup : LaneMessage
first_followup = message "a" (queued followup)

abbrev second_collect : LaneMessage
second_collect = message "b" (queued collect)

abbrev third_steer : LaneMessage
third_steer = message "c" (queued steer)

abbrev urgent : LaneMessage
urgent = message "d" interrupt

abbrev two_slots : MessageBuffer
two_slots = record {
  queue = record { buffer = none ∷ none ∷ []; head = 0; tail = 0; count = 0; capacity = 2 };
  seq = 0;
  counts = zero_counts;
}

abbrev calls : List Call
calls =
    dispatches first_followup
    ∷ dispatches second_collect
    ∷ dispatches urgent
    ∷ dispatches third_steer
    ∷ sizes followup
    ∷ totals
    ∷ drains
    ∷ totals
    ∷ []

buffer_run-init_example : run two_slots calls ≡ (
    events []
    ∷ events []
    ∷ events (interrupted urgent ∷ [])
    ∷ events (overflowed first_followup ∷ [])
    ∷ number 0
    ∷ number 2
    ∷ result (some (third_steer ∷ second_collect ∷ []))
    ∷ number 0
    ∷ [])
unfolding init Fifo.init Pending.run
buffer_run-init_example = buffer_run-init 2 two_slots calls refl
