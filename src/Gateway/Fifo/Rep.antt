-- ===== src/Gateway/Fifo/Rep.antt =====
-- The ring buffer of packages/gateway/src/queue/bounded-fifo.ts represents a list, oldest first.
use native.Mathlib.Nat.{mod-add-mod, mod-eq_of_lt, mod-eq-sub-mod}
use mathlib.Core.List.{map-append}
use mathlib.Core.Path.{ap₂}
use native.Mathlib.Numerals.{add-one}
use templar.Prelude.{
  ℕ, zero, suc, ◌+◌, ◌-◌, ◌%◌, ◌≤◌, ◌<◌, ◌≡◌, refl, sym, ap, ◌∙◌, ◌≢◌, ◌⊎◌, inl, inr, Option, none,
  some, List, [], ◌∷◌, ◌++◌, map, arith, ltb, Bool-cases, length, set, length-set,
  get_elem?-set_self, get_elem?-set_ne, length-append, length-replicate,
}
use templar.Gateway.Fifo.{Fifo, slot, slots, drop_head, push_tail, init}

-- One step round the ring.
wrap : (x cap : ℕ) → x < cap + cap → ((x < cap) × (x % cap ≡ x)) ⊎ ((cap ≤ x) × (x % cap ≡ x - cap))
wrap x cap h = elim (Bool-cases (ltb x cap)) [
  | inl e ↦ let lt : x < cap = ground arith in inl (lt, mod-eq_of_lt lt)
  | inr e ↦
      let ge : cap ≤ x = ground arith in inr (ge, mod-eq-sub-mod ge ∙ mod-eq_of_lt (omega arith))
]

wrap_ne : (h cap i j : ℕ) → h < cap → i < j → j < cap → (h + i) % cap ≢ (h + j) % cap
wrap_ne h cap i j hh hi hj =
    grind (arith, wrap (h + i) cap (omega arith), wrap (h + j) cap (omega arith))

wrap_lt : (x cap : ℕ) → 0 < cap → x % cap < cap
wrap_lt x cap h = omega arith

shift : (h i cap : ℕ) → ((h + 1) % cap + i) % cap ≡ (h + suc i) % cap
shift h i cap = mod-add-mod (h + 1) cap i ∙ ap (λ k. k % cap) (omega arith)

module _ {ℓ} {A : Type ℓ} where
  slot-set_self :
      (b : List (Option A)) (i : ℕ) (v : Option A) → i < length b → slot (set b i v) i ≡ v
  unfolding slot
  slot-set_self b i v h = rw (get_elem?-set_self b i v h, slot)

  slot-set_ne :
      (b : List (Option A)) (i j : ℕ) (v : Option A) → i ≢ j → slot (set b i v) j ≡ slot b j
  unfolding slot
  slot-set_ne b i j v h = rw (get_elem?-set_ne b i j v h, slot)

  -- A write outside the window of `n` slots from the `i`-th on leaves it alone.
  slots-set :
      (b : List (Option A)) (cap h i n j : ℕ) (v : Option A)
      → h < cap
      → j < cap
      → i + n ≤ cap
      → (j < i) ⊎ (i + n ≤ j)
      → slots (set b ((h + j) % cap) v) cap h i n ≡ slots b cap h i n
  unfolding slots
  slots-set b cap h i zero j v hh hj hn out = refl
  slots-set b cap h i (suc n) j v hh hj hn out =
      let apart : (h + j) % cap ≢ (h + i) % cap = (elim out [
        | inl lt ↦ wrap_ne h cap j i hh lt (omega arith)
        | inr ge ↦ λ e. wrap_ne h cap i j hh (omega arith) hj (sym e)
      ]) in
      rw (slot-set_ne b ((h + j) % cap) ((h + i) % cap) v apart) (
        ap (◌∷◌ (slot b ((h + i) % cap)))
          (slots-set b cap h (suc i) n j v hh hj (omega arith) (omega arith)))

  slots-snoc :
      (b : List (Option A)) (cap h i n : ℕ)
      → slots b cap h i (suc n) ≡ slots b cap h i n ++ slot b ((h + (i + n)) % cap) ∷ []
  unfolding slots
  slots-snoc b cap h i zero = ap (λ k. slot b ((h + k) % cap) ∷ []) (omega arith)
  slots-snoc b cap h i (suc n) = ap (◌∷◌ (slot b ((h + i) % cap))) (
      slots-snoc b cap h (suc i) n
      ∙ ap (λ k. slots b cap h (suc i) n ++ slot b ((h + k) % cap) ∷ []) (omega arith))

  slots-shift :
      (b : List (Option A)) (cap h i n : ℕ)
      → slots b cap ((h + 1) % cap) i n ≡ slots b cap h (suc i) n
  unfolding slots
  slots-shift b cap h i zero = refl
  slots-shift b cap h i (suc n) =
      rw (shift h i cap) (ap (◌∷◌ (slot b ((h + suc i) % cap))) (slots-shift b cap h (suc i) n))

  -- A write just past a window extends it.
  slots-snoc_written :
      (b : List (Option A)) (cap h n : ℕ) (x : A)
      → h < cap
      → n < cap
      → cap ≤ length b
      → slots (set b ((h + n) % cap) (some x)) cap h 0 (suc n) ≡ slots b cap h 0 n ++ some x ∷ []
  slots-snoc_written b cap h n x hh hn hb =
      slots-snoc (set b ((h + n) % cap) (some x)) cap h 0 n
      ∙ ap₂ (λ l o. l ++ o ∷ [])
          (slots-set b cap h 0 n n (some x) hh hn (omega arith) (inr (omega arith)))
          (ap (λ k. slot (set b ((h + n) % cap) (some x)) (k % cap)) (omega arith)
            ∙ slot-set_self b ((h + n) % cap) (some x) (omega (arith, wrap_lt (h + n) cap)))

  -- What a queue must satisfy to hold the items `xs`, oldest first.
  pub record Rep (q : Fifo A) (xs : List A) : Type ℓ where
    pub storage : length q.buffer ≡ q.capacity
    pub head_in : q.head < q.capacity
    pub tail_at : q.tail ≡ (q.head + q.count) % q.capacity
    pub counted : q.count ≡ length xs
    pub bounded : q.count ≤ q.capacity
    pub stored : slots q.buffer q.capacity q.head 0 q.count ≡ map some xs

  pub init-Rep : (capacity : ℕ) {q : Fifo A} → init capacity ≡ some q → Rep q []
  unfolding init slots
  init-Rep capacity {q} e = ground (arith, length-replicate {ℓ} {A = Option A} capacity none)

  -- The head's index is in the form that the lemmas on windows use.
  head-wrap : {xs : List A} (q : Fifo A) → Rep q xs → (q.head + 0) % q.capacity ≡ q.head
  head-wrap q r = ap (λ k. k % q.capacity) (omega arith) ∙ mod-eq_of_lt r.head_in

  pub drop_head-Rep :
      (q : Fifo A) (x : A) (xs : List A)
      → Rep q (x ∷ xs)
      → (slot q.buffer q.head ≡ some x) × Rep (drop_head q) xs
  unfolding drop_head slots
  drop_head-Rep q x xs r =
      let n = length xs in
      let n_eq : q.count ≡ suc n = r.counted in
      let st : slots q.buffer q.capacity q.head 0 (suc n) ≡ map some (x ∷ xs) =
        rw n_eq at r.stored in
      (
        ground (arith, st, head-wrap q r),
        record {
          storage = length-set q.buffer q.head none ∙ r.storage;
          head_in = wrap_lt (q.head + 1) q.capacity (omega arith);
          tail_at =
              r.tail_at
              ∙ ap (λ k. k % q.capacity) (omega arith)
              ∙ sym (mod-add-mod (q.head + 1) q.capacity (q.count - 1));
          counted = omega arith;
          bounded = omega arith;
          stored = ground (
            arith,
            st,
            head-wrap q r,
            slots-shift (set q.buffer q.head none) q.capacity q.head 0 n,
            slots-set q.buffer q.capacity q.head 1 n 0 none,
          );
        },
      )

  pub push_tail-Rep :
      (q : Fifo A) (x : A) (xs : List A)
      → length xs < q.capacity
      → Rep q xs
      → Rep (push_tail q x) (xs ++ x ∷ [])
  unfolding push_tail
  push_tail-Rep q x xs h r = record {
    storage = length-set q.buffer q.tail (some x) ∙ r.storage;
    head_in = r.head_in;
    tail_at =
        ap (λ k. (k + 1) % q.capacity) r.tail_at
        ∙ mod-add-mod (q.head + q.count) q.capacity 1
        ∙ ap (λ k. k % q.capacity) (omega arith);
    counted = omega (arith, length-append xs (x ∷ []));
    bounded = omega arith;
    stored =
        rw (r.tail_at, add-one q.count)
          (slots-snoc_written q.buffer q.capacity q.head q.count x r.head_in (omega arith)
              (omega arith)
            ∙ ap (λ l. l ++ some x ∷ []) r.stored
            ∙ sym (map-append some xs (x ∷ [])));
  }
