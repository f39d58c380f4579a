-- ===== src/Gateway/Fifo/Tests.antt =====
-- Runs of packages/gateway/src/queue/bounded-fifo.ts on small queues.
use templar.Prelude.{ℕ, ◌≡◌, refl, none, some, List, [], ◌∷◌}
use templar.Gateway.Fifo.{Fifo, init}
use templar.Gateway.Fifo.Bounded
use templar.Gateway.Fifo.Bounded.{Call, Reply, enqueues, dequeues, peeks, drains, one, many}
use templar.Gateway.Fifo.Refine.{run, fifo_run-init}

abbrev two_slots : Fifo ℕ
two_slots = record { buffer = none ∷ none ∷ []; head = 0; tail = 0; count = 0; capacity = 2 }

-- The third item drops the first.
abbrev overflow : List (Call ℕ)
overflow = enqueues 1 ∷ enqueues 2 ∷ enqueues 3 ∷ peeks ∷ drains ∷ dequeues ∷ []

fifo_run-init_example : run two_slots overflow ≡ (
    one none ∷ one none ∷ one (some 1) ∷ one (some 2) ∷ many (some 2 ∷ some 3 ∷ []) ∷ one none ∷ [])
unfolding init Bounded.run
fifo_run-init_example = fifo_run-init 2 two_slots overflow refl
