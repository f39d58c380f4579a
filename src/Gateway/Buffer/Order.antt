-- ===== src/Gateway/Buffer/Order.antt =====
-- The sort of `MessageBuffer.drain`: lane by lane, and in a lane in the order of arrival.
use templar.Prelude.{
  ℕ, suc, ◌≤◌, ◌<◌, ◌≡◌, refl, ap, ◌∙◌, Bool, true, false, List, [], ◌∷◌, ◌++◌, arith, keep, All,
  All-append, inl, inr, Bool-cases,
}
use templar.Prelude.Sort.{sort, insert_sorted, insert_sorted-front, insert_sorted-past}
use templar.Gateway.Lanes.{QueuedLane, steer, collect, followup, same_lane, lane_priority}
use templar.Gateway.Buffer.{QueuedEntry, before}

-- The sequence numbers rise from `lo` on and stay below `hi`.
abbrev pub Ascending : ℕ → List QueuedEntry → ℕ → Type 0
Ascending lo [] hi = lo ≤ hi
Ascending lo (x ∷ xs) hi = (lo ≤ x.seq) × Ascending (suc x.seq) xs hi

pub Ascending-mono :
    (lo lo' : ℕ) (xs : List QueuedEntry) (hi : ℕ)
    → lo' ≤ lo
    → Ascending lo xs hi
    → Ascending lo' xs hi
Ascending-mono lo lo' [] hi h a = omega arith
Ascending-mono lo lo' (x ∷ xs) hi h a = (omega arith, a.1)

pub Ascending-snoc :
    (lo : ℕ) (xs : List QueuedEntry) (e : QueuedEntry)
    → Ascending lo xs e.seq
    → Ascending lo (xs ++ e ∷ []) (suc e.seq)
Ascending-snoc lo [] e a = (a, omega arith)
Ascending-snoc lo (x ∷ xs) e a = (a.0, Ascending-snoc (suc x.seq) xs e a.1)

abbrev pub in_lane : QueuedLane → QueuedEntry → Bool
in_lane l e = same_lane l e.lane

abbrev pub by_lane : List QueuedEntry → List QueuedEntry
by_lane xs = keep (in_lane steer) xs ++ (keep (in_lane collect) xs ++ keep (in_lane followup) xs)

same_lane-eq : (l k : QueuedLane) → same_lane l k ≡ true → k ≡ l
same_lane-eq steer k h = ground arith
same_lane-eq collect k h = ground arith
same_lane-eq followup k h = ground arith

-- The entries of a lane that come after `n` satisfy what all such entries do.
All-later :
    (P : QueuedEntry → Type 0) (l : QueuedLane) (n lo hi : ℕ) (xs : List QueuedEntry)
    → n < lo
    → Ascending lo xs hi
    → ((y : QueuedEntry) → y.lane ≡ l → n < y.seq → P y)
    → All P (keep (in_lane l) xs)
All-later P l n lo hi [] h a p = tt
All-later P l n lo hi (x ∷ xs) h a p = elim (Bool-cases (in_lane l x)) [
  | inl e ↦ rw e (
    p x (same_lane-eq l x.lane e) (omega arith),
    All-later P l n (suc x.seq) hi xs (omega arith) a.1 p,
  )
  | inr e ↦ rw e (All-later P l n (suc x.seq) hi xs (omega arith) a.1 p)
]

module _ (x : QueuedEntry) (xs : List QueuedEntry) (hi : ℕ) (a : Ascending (suc x.seq) xs hi) where
  ahead :
      (l : QueuedLane)
      → lane_priority x.lane ≤ lane_priority l
      → All (λ y. before x y ≡ true) (keep (in_lane l) xs)
  ahead l h =
      All-later (λ y. before x y ≡ true) l x.seq (suc x.seq) hi xs (omega arith) a
        λ y e s. rw e (ground arith)

  behind :
      (l : QueuedLane)
      → lane_priority l < lane_priority x.lane
      → All (λ y. before x y ≡ false) (keep (in_lane l) xs)
  behind l h =
      All-later (λ y. before x y ≡ false) l x.seq (suc x.seq) hi xs (omega arith) a
        λ y e s. rw e (ground arith)

  place : (l : QueuedLane) → x.lane ≡ l → insert_sorted before x (by_lane xs) ≡ by_lane (x ∷ xs)
  place steer e =
      let yes1 : in_lane steer x ≡ true = rw e in
      let no2 : in_lane collect x ≡ false = rw e in
      let no3 : in_lane followup x ≡ false = rw e in
      rw (yes1, no2, no3)
        (insert_sorted-front before x (by_lane xs) (
          All-append _ _ _ (ahead steer (rw e (omega arith))) (
            All-append _ _ _ (ahead collect (rw e (omega arith)))
              (ahead followup (rw e (omega arith))))))
  place collect e =
      let no1 : in_lane steer x ≡ false = rw e in
      let yes2 : in_lane collect x ≡ true = rw e in
      let no3 : in_lane followup x ≡ false = rw e in
      rw (no1, yes2, no3)
        (insert_sorted-past before x _ _ (behind steer (rw e (omega arith)))
          ∙ ap (◌++◌ (keep (in_lane steer) xs)) (
              insert_sorted-front before x _ (
                All-append _ _ _ (ahead collect (rw e (omega arith)))
                  (ahead followup (rw e (omega arith))))))
  place followup e =
      let no1 : in_lane steer x ≡ false = rw e in
      let no2 : in_lane collect x ≡ false = rw e in
      let yes3 : in_lane followup x ≡ true = rw e in
      rw (no1, no2, yes3)
        (insert_sorted-past before x _ _ (behind steer (rw e (omega arith)))
          ∙ ap (◌++◌ (keep (in_lane steer) xs)) (
              insert_sorted-past before x _ _ (behind collect (rw e (omega arith)))
              ∙ ap (◌++◌ (keep (in_lane collect) xs))
                  (insert_sorted-front before x _ (ahead followup (rw e (omega arith))))))

-- Entries in the order of their sequence numbers are sorted into the three lanes, each in order.
pub sort-by_lane :
    (lo hi : ℕ) (xs : List QueuedEntry) → Ascending lo xs hi → sort before xs ≡ by_lane xs
unfolding sort
sort-by_lane lo hi [] a = refl
sort-by_lane lo hi (x ∷ xs) a =
    ap (insert_sorted before x) (sort-by_lane (suc x.seq) hi xs a.1) ∙ place x xs hi a.1 x.lane refl
