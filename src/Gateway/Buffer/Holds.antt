-- ===== src/Gateway/Buffer/Holds.antt =====
-- The buffer of packages/gateway/src/queue/message-buffer.ts holds a list of entries.
use templar.Prelude.{
  ℕ, suc, ◌+◌, ◌-◌, ◌≡◌, refl, sym, ap, subst, ◌∙◌, true, false, Option, none, some, List, [], ◌∷◌,
  ◌++◌, map, arith, length, keep, All, All-append, inl, inr, Bool-cases, Option-cases, leb,
  lt→not-leb, if◌then◌else◌,
}
use templar.Gateway.Fifo
use templar.Gateway.Fifo.{Fifo}
use templar.Gateway.Fifo.Rep.{Rep, init-Rep}
use templar.Gateway.Fifo.Refine.{enqueue_refines, drain_refines, capacity-init}
use templar.Gateway.Lanes.{QueuedLane, LaneMessage, steer, collect, followup, queued}
use templar.Gateway.Buffer.{
  MessageBuffer, QueuedEntry, LaneCounts, Event, overflowed, init, settle, drain, finish, messages,
  hand_out, message_of, change, zero_counts,
}
use templar.Gateway.Buffer.Order.{
  Ascending, Ascending-mono, Ascending-snoc, in_lane, by_lane, sort-by_lane,
}

abbrev pub count_lanes : List QueuedEntry → LaneCounts
count_lanes xs = record {
  steers = length (keep (in_lane steer) xs);
  collects = length (keep (in_lane collect) xs);
  followups = length (keep (in_lane followup) xs);
}

pub record Holds (b : MessageBuffer) (xs : List QueuedEntry) : Type 0 where
  pub fifo : Rep b.queue xs
  pub ascending : Ascending 0 xs b.seq
  pub counted : b.counts ≡ count_lanes xs
  pub lanes : All (λ e. e.message.lane ≡ queued e.lane) xs

length-keep-snoc :
    (l : QueuedLane) (xs : List QueuedEntry) (e : QueuedEntry)
    → length (keep (in_lane l) (xs ++ e ∷ []))
      ≡ (if in_lane l e then length (keep (in_lane l) xs) + 1 else length (keep (in_lane l) xs))
length-keep-snoc l [] e = ground arith
length-keep-snoc l (x ∷ xs) e = ground (arith, length-keep-snoc l xs e)

-- One more entry of a lane is one more on its counter.
count_lanes-snoc :
    (xs : List QueuedEntry) (e : QueuedEntry)
    → change (λ n. n + 1) e.lane (count_lanes xs) ≡ count_lanes (xs ++ e ∷ [])
count_lanes-snoc xs e = ground (
  arith,
  length-keep-snoc steer xs e,
  length-keep-snoc collect xs e,
  length-keep-snoc followup xs e,
)

-- The oldest entry is counted, so its counter is decremented from 1 or more.
count_lanes-cons :
    (x : QueuedEntry) (xs : List QueuedEntry)
    → change (λ n. n - 1) x.lane (count_lanes (x ∷ xs)) ≡ count_lanes xs
count_lanes-cons x xs = ground arith

-- The entry that `dispatch` makes.
abbrev pub entry_of : MessageBuffer → QueuedLane → LaneMessage → QueuedEntry
entry_of b l m = record { seq = b.seq; lane = l; message = m }

fresh-Holds :
    (q : Fifo QueuedEntry)
    → Rep q []
    → Holds (record { queue = q; seq = 0; counts = zero_counts }) []
fresh-Holds q r = record { fifo = r; ascending = omega arith; counted = refl; lanes = tt }

pub init-Holds :
    (capacity : ℕ) {b : MessageBuffer}
    → init capacity ≡ some b
    → Holds b [] × (b.queue.capacity ≡ capacity)
unfolding init
init-Holds capacity {b} e = elim (Option-cases (Fifo.init {A = QueuedEntry} capacity)) [
  | inl bad ↦ cc bad
  | inr (q, made) ↦
      let same : record { queue = q; seq = 0; counts = zero_counts } ≡ b = ground (arith, made) in
      (
        subst (λ c. Holds c []) same (fresh-Holds q (init-Rep capacity made)),
        ap (λ c. c.queue.capacity) (sym same) ∙ capacity-init capacity made,
      )
]

-- An entry that is pushed on the entries `xs` of a queue with room.
pushed-Holds :
    (b b' : MessageBuffer) (xs : List QueuedEntry) (m : LaneMessage) (l : QueuedLane)
    → m.lane ≡ queued l
    → Ascending 0 xs b.seq
    → All (λ e. e.message.lane ≡ queued e.lane) xs
    → Rep b'.queue (xs ++ entry_of b l m ∷ [])
    → b'.seq ≡ b.seq + 1
    → b'.counts ≡ change (λ n. n + 1) l (count_lanes xs)
    → Holds b' (xs ++ entry_of b l m ∷ [])
pushed-Holds b b' xs m l el asc lanes rep es ec = record {
  fifo = rep;
  ascending =
      subst (Ascending 0 (xs ++ entry_of b l m ∷ [])) (omega arith)
        (Ascending-snoc 0 xs (entry_of b l m) asc);
  counted = ec ∙ count_lanes-snoc xs (entry_of b l m);
  lanes = All-append _ xs _ lanes (el, tt);
}

-- The entries after a dispatch to a lane, and what is emitted.
abbrev pub next : ℕ → List QueuedEntry → QueuedEntry → List QueuedEntry × List Event
next capacity [] e = (e ∷ [], [])
next capacity (x ∷ xs) e =
    if leb capacity (length (x ∷ xs))
    then (xs ++ e ∷ [], overflowed x.message ∷ [])
    else (x ∷ xs ++ e ∷ [], [])

settle-none :
    (b : MessageBuffer) (l : QueuedLane) (p : Fifo QueuedEntry × Option QueuedEntry)
    → p.1 ≡ none
    → settle b l p
      ≡ (record { queue = p.0; seq = b.seq + 1; counts = change (λ n. n + 1) l b.counts }, [])
unfolding settle
settle-none b l (q, none) e = refl
settle-none b l (q, some d) e = cc

settle-some :
    (b : MessageBuffer) (l : QueuedLane) (p : Fifo QueuedEntry × Option QueuedEntry)
    (d : QueuedEntry)
    → p.1 ≡ some d
    → settle b l p ≡ (
      record {
        queue = p.0;
        seq = b.seq + 1;
        counts = change (λ n. n + 1) l (change (λ n. n - 1) d.lane b.counts);
      },
      overflowed d.message ∷ [],
    )
unfolding settle
settle-some b l (q, none) d e = cc
settle-some b l (q, some d') d e =
    ap
      (λ (x : QueuedEntry). (
        record {
          queue = q;
          seq = b.seq + 1;
          counts = change (λ n. n + 1) l (change (λ n. n - 1) x.lane b.counts);
        },
        overflowed x.message ∷ [],
      ))
      same
  where
    same : d' ≡ d
    same = cc

module _ (b : MessageBuffer) (m : LaneMessage) (l : QueuedLane) (el : m.lane ≡ queued l) where
  abbrev settled : MessageBuffer × List Event
  settled = settle b l (Fifo.enqueue b.queue (entry_of b l m))

  -- With room the entry is appended and nothing is emitted.
  roomy-Holds :
      (xs : List QueuedEntry)
      → leb b.queue.capacity (length xs) ≡ false
      → Holds b xs
      → Holds settled.0 (xs ++ entry_of b l m ∷ []) × (settled.1 ≡ [])
  roomy-Holds xs room h =
      let e = entry_of b l m in
      let (o, rep) = enqueue_refines b.queue xs e h.fifo in
      let o' : (Fifo.enqueue b.queue e).1 ≡ none = rw room at o in
      let rep' : Rep (Fifo.enqueue b.queue e).0 (xs ++ e ∷ []) = rw room at rep in
      rw (settle-none b l (Fifo.enqueue b.queue e) o') (
        pushed-Holds b _ xs m l el h.ascending h.lanes rep' refl
            (ap (change (λ n. n + 1) l) h.counted),
        refl,
      )

  -- A full buffer loses its oldest entry, which is emitted.
  full-Holds :
      (x : QueuedEntry) (xs : List QueuedEntry)
      → leb b.queue.capacity (length (x ∷ xs)) ≡ true
      → Holds b (x ∷ xs)
      → Holds settled.0 (xs ++ entry_of b l m ∷ []) × (settled.1 ≡ overflowed x.message ∷ [])
  full-Holds x xs full h =
      let e = entry_of b l m in
      let (o, rep) = enqueue_refines b.queue (x ∷ xs) e h.fifo in
      let o' : (Fifo.enqueue b.queue e).1 ≡ some x = rw full at o in
      let rep' : Rep (Fifo.enqueue b.queue e).0 (xs ++ e ∷ []) = rw full at rep in
      rw (settle-some b l (Fifo.enqueue b.queue e) x o') (
        pushed-Holds b _ xs m l el
            (Ascending-mono (suc x.seq) 0 xs b.seq (omega arith) h.ascending.1) h.lanes.1 rep' refl
            (ap (change (λ n. n + 1) l)
              (ap (change (λ n. n - 1) x.lane) h.counted ∙ count_lanes-cons x xs)),
        refl,
      )

  pub settled-Holds :
      (xs : List QueuedEntry)
      → Holds b xs
      → Holds settled.0 (next b.queue.capacity xs (entry_of b l m)).0
        × (settled.1 ≡ (next b.queue.capacity xs (entry_of b l m)).1)
  settled-Holds [] h = roomy-Holds [] (lt→not-leb _ _ (omega (arith, h.fifo.head_in))) h
  settled-Holds (x ∷ xs) h = elim (Bool-cases (leb b.queue.capacity (length (x ∷ xs)))) [
    | inl full ↦ rw full (full-Holds x xs full h)
    | inr room ↦ rw room (roomy-Holds (x ∷ xs) room h)
  ]

-- The pending messages that are stored stay the same when they are drained.
messages-map : (xs : List QueuedEntry) → messages (map some xs) ≡ some xs
unfolding messages
messages-map [] = refl
messages-map (x ∷ xs) = rw (messages-map xs)

finish_lem :
    {b : MessageBuffer} (xs : List QueuedEntry) (p : Fifo QueuedEntry × List (Option QueuedEntry))
    → Holds b xs
    → p.1 ≡ map some xs
    → Rep p.0 []
    → Holds (finish b p).0 [] × ((finish b p).1 ≡ some (map message_of (by_lane xs)))
unfolding finish
finish_lem {b} [] (q, []) h e r =
    (record { fifo = r; ascending = omega arith; counted = h.counted; lanes = tt }, refl)
finish_lem {b} (x ∷ xs) (q, o ∷ os) h e r = (
  record { fifo = r; ascending = omega arith; counted = refl; lanes = tt },
  ap hand_out (ap messages e ∙ messages-map (x ∷ xs))
      ∙ ap (λ l. some (map message_of l)) (sort-by_lane 0 b.seq (x ∷ xs) h.ascending),
)
finish_lem [] (q, o ∷ os) h e r = cc
finish_lem (x ∷ xs) (q, []) h e r = cc

-- A drain hands out every entry, lane by lane, and leaves an empty buffer.
pub drain-Holds :
    (b : MessageBuffer) (xs : List QueuedEntry)
    → Holds b xs
    → Holds (drain b).0 [] × ((drain b).1 ≡ some (map message_of (by_lane xs)))
unfolding drain
drain-Holds b xs h =
    let (o, rep) = drain_refines b.queue xs h.fifo in finish_lem xs (Fifo.drain b.queue) h o rep
