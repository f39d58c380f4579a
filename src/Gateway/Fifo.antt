-- ===== src/Gateway/Fifo.antt =====
-- packages/gateway/src/queue/bounded-fifo.ts: the drop-oldest ring buffer behind the message
-- queues. The array is a list of `Option`, where `none` is `undefined`; an index out of range
-- reads `undefined`. Capacities, indices and counts are natural numbers.
pub mod Bounded
pub mod Rep
pub mod Refine
mod Tests
use templar.Prelude.{
  ℕ, zero, suc, ◌+◌, ◌-◌, ◌%◌, Bool, Option, none, some, List, [], ◌∷◌, ltb, leb, ◌==◌,
  if◌then◌else◌, get_elem?, set, replicate,
}

pub record Fifo {ℓ} (A : Type ℓ) : Type ℓ where
  pub buffer : List (Option A)
  pub head : ℕ
  pub tail : ℕ
  pub count : ℕ
  pub capacity : ℕ

module _ {ℓ} {A : Type ℓ} where
  -- `buffer[i]`
  pub slot : List (Option A) → ℕ → Option A
  slot buffer i = elim (get_elem? buffer i) [ none ↦ none | some o ↦ o ]

  -- The constructor; `none` is its RangeError.
  unfoldable pub init : ℕ → Option (Fifo A)
  init capacity =
      if ltb capacity 1
      then none
      else some (record {
        buffer = replicate capacity none;
        head = 0;
        tail = 0;
        count = 0;
        capacity = capacity;
      })

  -- The three statements, shared by `enqueue` and `dequeue`, that vacate the head.
  pub drop_head : Fifo A → Fifo A
  drop_head q = record q {
    buffer = set q.buffer q.head none;
    head = (q.head + 1) % q.capacity;
    count = q.count - 1;
  }

  -- The three statements at the end of `enqueue`.
  pub push_tail : Fifo A → A → Fifo A
  push_tail q item = record q {
    buffer = set q.buffer q.tail (some item);
    tail = (q.tail + 1) % q.capacity;
    count = q.count + 1;
  }

  -- The queue after the call, and the dropped item.
  pub enqueue : Fifo A → A → Fifo A × Option A
  enqueue q item =
      if leb q.capacity q.count
      then (push_tail (drop_head q) item, slot q.buffer q.head)
      else (push_tail q item, none)

  pub dequeue : Fifo A → Fifo A × Option A
  dequeue q = if q.count == 0 then (q, none) else (drop_head q, slot q.buffer q.head)

  pub peek : Fifo A → Option A
  peek q = if q.count == 0 then none else slot q.buffer q.head

  -- The loop of `drain`: the reads for `i`, `i + 1`, … over the rounds that are left.
  pub slots : List (Option A) → ℕ → ℕ → ℕ → ℕ → List (Option A)
  slots buffer capacity head i zero = []
  slots buffer capacity head i (suc n) =
      slot buffer ((head + i) % capacity) ∷ slots buffer capacity head (suc i) n

  -- `fill(undefined)`
  pub cleared : List (Option A) → List (Option A)
  cleared [] = []
  cleared (x ∷ xs) = none ∷ cleared xs

  -- The queue after the call, and the result array (where an element could be `undefined`).
  pub drain : Fifo A → Fifo A × List (Option A)
  drain q = if q.count == 0 then (q, []) else (
    record q { buffer = cleared q.buffer; head = 0; tail = 0; count = 0 },
    slots q.buffer q.capacity q.head 0 q.count,
  )

  pub is_full : Fifo A → Bool
  is_full q = leb q.capacity q.count

  pub is_empty : Fifo A → Bool
  is_empty q = q.count == 0
