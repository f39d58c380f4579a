-- ===== src/Gateway/Fifo/Refine.antt =====
-- The ring buffer of packages/gateway/src/queue/bounded-fifo.ts behaves as a bounded list.
use templar.Prelude.{
  ℕ, suc, ◌<◌, ◌≡◌, refl, ap, Option, some, List, [], ◌∷◌, map, arith, leb, lt→not-leb, not-leb→lt,
  leb→le, inl, inr, length, false, Bool-cases,
}
use templar.Gateway.Fifo.{
  Fifo, slots, init, drop_head, push_tail, enqueue, dequeue, peek, drain, cleared,
}
use templar.Gateway.Fifo.Bounded
use templar.Gateway.Fifo.Bounded.{Call, enqueues, dequeues, peeks, drains, Reply, one, many}
use templar.Gateway.Fifo.Rep.{Rep, init-Rep, drop_head-Rep, push_tail-Rep}

module _ {ℓ} {A : Type ℓ} where
  pub run : Fifo A → List (Call A) → List (Reply A)
  run q [] = []
  run q (enqueues x ∷ calls) = let (q', o) = enqueue q x in one o ∷ run q' calls
  run q (dequeues ∷ calls) = let (q', o) = dequeue q in one o ∷ run q' calls
  run q (peeks ∷ calls) = one (peek q) ∷ run q calls
  run q (drains ∷ calls) = let (q', l) = drain q in many l ∷ run q' calls

  length-cleared : (b : List (Option A)) → length (cleared b) ≡ length b
  unfolding cleared
  length-cleared [] = refl
  length-cleared (x ∷ b) = ap suc (length-cleared b)

  capacity-drop_head : (q : Fifo A) → (drop_head q).capacity ≡ q.capacity
  unfolding drop_head
  capacity-drop_head q = refl

  pub capacity-enqueue : (q : Fifo A) (x : A) → (enqueue q x).0.capacity ≡ q.capacity
  unfolding enqueue drop_head push_tail
  capacity-enqueue q x = ground arith

  capacity-dequeue : (q : Fifo A) → (dequeue q).0.capacity ≡ q.capacity
  unfolding dequeue drop_head
  capacity-dequeue q = ground arith

  pub capacity-drain : (q : Fifo A) → (drain q).0.capacity ≡ q.capacity
  unfolding drain
  capacity-drain q = ground arith

  -- A full queue drops its oldest item and reports it; any other keeps all its items.
  pub enqueue_refines :
      (q : Fifo A) (xs : List A) (x : A)
      → Rep q xs
      → ((enqueue q x).1 ≡ (Bounded.enqueue q.capacity xs x).1)
        × Rep (enqueue q x).0 (Bounded.enqueue q.capacity xs x).0
  unfolding enqueue
  enqueue_refines q [] x r =
      let room : leb q.capacity 0 ≡ false = lt→not-leb _ _ (omega arith) in
      let room' : leb q.capacity q.count ≡ false = lt→not-leb _ _ (omega arith) in
      rw (room, room') (refl, push_tail-Rep q x [] (omega arith) r)
  enqueue_refines q (y ∷ xs) x r = rw (← r.counted) (elim (Bool-cases (leb q.capacity q.count)) [
    | inl full ↦
        let (dropped, kept) = drop_head-Rep q y xs r in
        let fits : length xs < q.capacity = omega (arith, leb→le q.capacity q.count full) in
        rw full (dropped, push_tail-Rep (drop_head q) x xs (rw (capacity-drop_head q) fits) kept)
    | inr room ↦
        let fits = not-leb→lt q.capacity q.count room in
        rw room (refl, push_tail-Rep q x (y ∷ xs) (omega arith) r)
  ])

  pub dequeue_refines :
      (q : Fifo A) (xs : List A)
      → Rep q xs
      → ((dequeue q).1 ≡ Bounded.first xs) × Rep (dequeue q).0 (Bounded.rest xs)
  unfolding dequeue
  dequeue_refines q [] r = ground arith
  dequeue_refines q (x ∷ xs) r = ground (arith, drop_head-Rep q x xs r)

  pub peek_refines : (q : Fifo A) (xs : List A) → Rep q xs → peek q ≡ Bounded.first xs
  unfolding peek
  peek_refines q [] r = ground arith
  peek_refines q (x ∷ xs) r = ground (arith, drop_head-Rep q x xs r)

  pub drain_refines :
      (q : Fifo A) (xs : List A) → Rep q xs → ((drain q).1 ≡ map some xs) × Rep (drain q).0 []
  unfolding drain slots
  drain_refines q [] r = ground arith
  drain_refines q (x ∷ xs) r = ground (arith, r.stored, length-cleared q.buffer)

  -- Whatever the calls, a queue that represents a list answers as the bounded list.
  pub run_refines :
      (calls : List (Call A)) (q : Fifo A) (xs : List A)
      → Rep q xs
      → run q calls ≡ Bounded.run q.capacity xs calls
  unfolding run Bounded.run
  run_refines [] q xs r = refl
  run_refines (enqueues x ∷ calls) q xs r = ground (
    arith,
    enqueue_refines q xs x r,
    run_refines calls (enqueue q x).0 (Bounded.enqueue q.capacity xs x).0,
    capacity-enqueue q x,
  )
  run_refines (dequeues ∷ calls) q xs r = ground (
    arith,
    dequeue_refines q xs r,
    run_refines calls (dequeue q).0 (Bounded.rest xs),
    capacity-dequeue q,
  )
  run_refines (peeks ∷ calls) q xs r = ground (arith, peek_refines q xs r, run_refines calls q xs r)
  run_refines (drains ∷ calls) q xs r =
      ground (arith, drain_refines q xs r, run_refines calls (drain q).0 [], capacity-drain q)

  pub capacity-init : (capacity : ℕ) {q : Fifo A} → init capacity ≡ some q → q.capacity ≡ capacity
  unfolding init
  capacity-init capacity e = ground arith

  -- Every queue that the constructor builds answers any calls, in any order, exactly as the
  -- bounded list of its capacity does from empty: first in, first out, the oldest item dropped
  -- and returned when the queue is full, and all items in order on `drain`.
  pub fifo_run-init :
      (capacity : ℕ) (q : Fifo A) (calls : List (Call A))
      → init capacity ≡ some q
      → run q calls ≡ Bounded.run capacity [] calls
  fifo_run-init capacity q calls e =
      rw (← capacity-init capacity e) (run_refines calls q [] (init-Rep capacity e))
