-- ===== src/Gateway/Fifo/Bounded.antt =====
-- What the ring buffer of packages/gateway/src/queue/bounded-fifo.ts promises: a bounded list,
-- oldest first, that drops its first item to make room.
use templar.Prelude.{ℕ, Option, none, some, List, [], ◌∷◌, ◌++◌, map, leb, if◌then◌else◌, length}

module _ {ℓ} {A : Type ℓ} where
  abbrev pub first : List A → Option A
  first [] = none
  first (x ∷ xs) = some x

  abbrev pub rest : List A → List A
  rest [] = []
  rest (x ∷ xs) = xs

  abbrev pub enqueue : ℕ → List A → A → List A × Option A
  enqueue capacity xs item =
      if leb capacity (length xs) then (rest xs ++ item ∷ [], first xs) else (xs ++ item ∷ [], none)

pub data Call {ℓ} (A : Type ℓ) : Type ℓ where
  enqueues : A → Call A
  dequeues peeks drains : Call A

pub data Reply {ℓ} (A : Type ℓ) : Type ℓ where
  one : Option A → Reply A
  many : List (Option A) → Reply A

module _ {ℓ} {A : Type ℓ} where
  unfoldable pub run : ℕ → List A → List (Call A) → List (Reply A)
  run cap xs [] = []
  run cap xs (enqueues x ∷ calls) = let (xs', o) = enqueue cap xs x in one o ∷ run cap xs' calls
  run cap xs (dequeues ∷ calls) = one (first xs) ∷ run cap (rest xs) calls
  run cap xs (peeks ∷ calls) = one (first xs) ∷ run cap xs calls
  run cap xs (drains ∷ calls) = many (map some xs) ∷ run cap [] calls
