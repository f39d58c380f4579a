-- ===== src/Gateway/Buffer/Refine.antt =====
-- The buffer of packages/gateway/src/queue/message-buffer.ts answers as a list of pending messages.
use mathlib.Core.List.{map-append}
use mathlib.Core.Path.{ap₂}
use templar.Prelude.{
  ℕ, ◌≡◌, refl, sym, ap, ◌∙◌, Bool-cases, Option, none, some, List, [], ◌∷◌, map, length,
  length-map, keep, All, inl, inr, leb,
}
use templar.Gateway.Fifo
use templar.Gateway.Fifo.{Fifo}
use templar.Gateway.Fifo.Refine.{capacity-enqueue, capacity-drain}
use templar.Gateway.Lanes.{
  Lane, QueuedLane, LaneMessage, steer, collect, followup, queued, interrupt,
}
use templar.Gateway.Buffer.{
  MessageBuffer, QueuedEntry, lane_count, Event, overflowed, init, settle, enqueue_on, dispatch,
  drain, finish, message_of, queue_size, total_queued,
}
use templar.Gateway.Buffer.Order.{in_lane, by_lane}
use templar.Gateway.Buffer.Pending
use templar.Gateway.Buffer.Pending.{
  Call, dispatches, drains, sizes, totals, Reply, events, result, number, lane_of, goes_to, drained,
}
use templar.Gateway.Buffer.Holds.{
  Holds, init-Holds, count_lanes, settled-Holds, drain-Holds, next, entry_of,
}

pub run : MessageBuffer → List Call → List Reply
run b [] = []
run b (dispatches m ∷ calls) = let (b', es) = dispatch b m in events es ∷ run b' calls
run b (drains ∷ calls) = let (b', l) = drain b in result l ∷ run b' calls
run b (sizes l ∷ calls) = number (queue_size b l) ∷ run b calls
run b (totals ∷ calls) = number (total_queued b) ∷ run b calls

-- The entries of a lane carry the messages of that lane.
lane_of-map :
    (l : QueuedLane) (xs : List QueuedEntry)
    → All (λ e. e.message.lane ≡ queued e.lane) xs
    → lane_of l (map message_of xs) ≡ map message_of (keep (in_lane l) xs)
lane_of-map l [] h = refl
lane_of-map l (x ∷ xs) h =
    let goes : goes_to l x.message.lane ≡ in_lane l x = ap (goes_to l) h.0 in
    elim (Bool-cases (in_lane l x)) [
      | inl e ↦ rw (goes ∙ e, e) (ap (◌∷◌ x.message) (lane_of-map l xs h.1))
      | inr e ↦ rw (goes ∙ e, e) (lane_of-map l xs h.1)
    ]

map-by_lane :
    (xs : List QueuedEntry)
    → All (λ e. e.message.lane ≡ queued e.lane) xs
    → map message_of (by_lane xs) ≡ drained (map message_of xs)
map-by_lane xs h =
    rw (lane_of-map steer xs h, lane_of-map collect xs h, lane_of-map followup xs h)
      (simp map-append)

-- The entries after a dispatch to a lane carry the pending messages after it.
next-on_lane :
    (capacity : ℕ) (l : QueuedLane) (xs : List QueuedEntry) (e : QueuedEntry)
    → ◌≡◌ {A = Pending.Pending × List Event}
        (map message_of (next capacity xs e).0, (next capacity xs e).1)
        (Pending.on_lane capacity (map message_of xs) e.message (queued l))
next-on_lane capacity l [] e = elim (Bool-cases (leb capacity 0)) [ inl c ↦ rw c | inr c ↦ rw c ]
next-on_lane capacity l (x ∷ xs) e =
    rw (length-map message_of xs) (elim (Bool-cases (leb capacity (length (x ∷ xs)))) [
      | inl c ↦ rw c (ap (λ l. (l, overflowed x.message ∷ [])) (map-append message_of xs (e ∷ [])))
      | inr c ↦ rw c (ap (λ l. (x.message ∷ l, [])) (map-append message_of xs (e ∷ [])))
    ])

-- The buffer represents the pending messages `ms`.
pub record Represents (b : MessageBuffer) (capacity : ℕ) (ms : List LaneMessage) : Type 0 where
  pub entries : List QueuedEntry
  pub holds : Holds b entries
  pub pending : map message_of entries ≡ ms
  pub capacity_same : b.queue.capacity ≡ capacity

capacity-settle :
    (b : MessageBuffer) (l : QueuedLane) (p : Fifo QueuedEntry × Option QueuedEntry)
    → (settle b l p).0.queue ≡ p.0
unfolding settle
capacity-settle b l (q, none) = refl
capacity-settle b l (q, some d) = refl

capacity-finish :
    (b : MessageBuffer) (p : Fifo QueuedEntry × List (Option QueuedEntry))
    → (finish b p).0.queue ≡ p.0
unfolding finish
capacity-finish b (q, []) = refl
capacity-finish b (q, o ∷ os) = refl

on_lane-Represents :
    (b : MessageBuffer) (capacity : ℕ) (ms : List LaneMessage) (m : LaneMessage) (lane : Lane)
    → m.lane ≡ lane
    → Represents b capacity ms
    → Represents (enqueue_on b m lane).0 capacity (Pending.on_lane capacity ms m lane).0
      × ((enqueue_on b m lane).1 ≡ (Pending.on_lane capacity ms m lane).1)
unfolding enqueue_on
on_lane-Represents b capacity ms m interrupt el r = (r, refl)
on_lane-Represents b capacity ms m (queued l) el r =
    let e = entry_of b l m in
    let (h, es) = settled-Holds b m l el r.entries r.holds in
    let same =
      (next-on_lane b.queue.capacity l r.entries e
        ∙ ap₂ (λ k ms'. Pending.on_lane k ms' m (queued l)) r.capacity_same r.pending) in
    (
      record {
        entries = (next b.queue.capacity r.entries e).0;
        holds = h;
        pending = ap (λ p. p.0) same;
        capacity_same =
            ap (λ q. q.capacity) (capacity-settle b l (Fifo.enqueue b.queue e))
            ∙ capacity-enqueue b.queue e
            ∙ r.capacity_same;
      },
      es ∙ ap (λ p. p.1) same,
    )

dispatch-Represents :
    (b : MessageBuffer) (capacity : ℕ) (ms : List LaneMessage) (m : LaneMessage)
    → Represents b capacity ms
    → Represents (dispatch b m).0 capacity (Pending.dispatch capacity ms m).0
      × ((dispatch b m).1 ≡ (Pending.dispatch capacity ms m).1)
unfolding dispatch
dispatch-Represents b capacity ms m r = on_lane-Represents b capacity ms m m.lane refl r

drain-Represents :
    (b : MessageBuffer) (capacity : ℕ) (ms : List LaneMessage)
    → Represents b capacity ms
    → Represents (drain b).0 capacity [] × ((drain b).1 ≡ some (drained ms))
unfolding drain
drain-Represents b capacity ms r =
    let (h, out) = drain-Holds b r.entries r.holds in
    (
      record {
        entries = [];
        holds = h;
        pending = refl;
        capacity_same =
            ap (λ q. q.capacity) (capacity-finish b (Fifo.drain b.queue))
            ∙ capacity-drain b.queue
            ∙ r.capacity_same;
      },
      out ∙ ap some (map-by_lane r.entries r.holds.lanes ∙ ap drained r.pending),
    )

queue_size-Represents :
    (b : MessageBuffer) (capacity : ℕ) (ms : List LaneMessage) (l : QueuedLane)
    → Represents b capacity ms
    → queue_size b l ≡ length (lane_of l ms)
unfolding queue_size
queue_size-Represents b capacity ms l r =
    ap (λ c. lane_count c l) r.holds.counted
    ∙ counted l
    ∙ sym (length-map message_of (keep (in_lane l) r.entries))
    ∙ ap length (sym (lane_of-map l r.entries r.holds.lanes) ∙ ap (lane_of l) r.pending)
  where
    counted :
        (k : QueuedLane)
        → lane_count (count_lanes r.entries) k ≡ length (keep (in_lane k) r.entries)
    counted steer = refl
    counted collect = refl
    counted followup = refl

run-Represents :
    (calls : List Call) (b : MessageBuffer) (capacity : ℕ) (ms : List LaneMessage)
    → Represents b capacity ms
    → run b calls ≡ Pending.run capacity ms calls
unfolding run Pending.run total_queued
run-Represents [] b capacity ms r = refl
run-Represents (dispatches m ∷ calls) b capacity ms r =
    let (r', es) = dispatch-Represents b capacity ms m r in
    ap₂ (λ o l. events o ∷ l) es (run-Represents calls _ capacity _ r')
run-Represents (drains ∷ calls) b capacity ms r =
    let (r', out) = drain-Represents b capacity ms r in
    ap₂ (λ o l. result o ∷ l) out (run-Represents calls _ capacity _ r')
run-Represents (sizes l ∷ calls) b capacity ms r =
    ap₂ (λ o l. number o ∷ l) (queue_size-Represents b capacity ms l r)
      (run-Represents calls b capacity ms r)
run-Represents (totals ∷ calls) b capacity ms r =
    ap₂ (λ o l. number o ∷ l)
      (r.holds.fifo.counted ∙ sym (length-map message_of r.entries) ∙ ap length r.pending)
      (run-Represents calls b capacity ms r)

-- A buffer that the constructor builds answers every sequence of calls exactly as the list of
-- pending messages does: interrupts pass by, a dispatch to a full buffer reports the oldest
-- message as overflowed and forgets it, a drain never fails and hands out the steer, then the
-- collect, then the followup messages, each in the order of arrival, and the counters give the
-- number of pending messages in a lane and in all.
pub buffer_run-init :
    (capacity : ℕ) (b : MessageBuffer) (calls : List Call)
    → init capacity ≡ some b
    → run b calls ≡ Pending.run capacity [] calls
buffer_run-init capacity b calls e =
    let (h, same) = init-Holds capacity e in
    run-Represents calls b capacity []
      (record { entries = []; holds = h; pending = refl; capacity_same = same })
