-- ===== src/Engine/SpawnGuard/Counts.antt =====
-- The counters of packages/engine/src/spawn-guard.ts agree with each other and keep the limits.
use templar.Prelude.{
  ℕ, ◌+◌, ◌-◌, ◌≤◌, ◌<◌, ◌≡◌, refl, subst, false, Bool-cases, List, [], ◌∷◌, String, arith, inl,
  inr, leb, ltb, not-leb→lt, if◌then◌else◌, str_eq, eq_iff, eq_refl,
}
use templar.Prelude.Maps.{
  Map, lookup, insert, erase, values, Unique, insert-Unique, erase-Unique, lookup-insert,
  lookup-erase, erase_absent,
}
use templar.Prelude.Results.{ok}
use templar.Engine.SpawnGuard.{
  SpawnLimits, SpawnGuardState, SpawnOp, records, spawn, completion, restart, initial, children,
  or_zero, check_spawn, record_spawn, check_and_record, release, record_completion, after, step,
  run,
}

abbrev pub sum : List ℕ → ℕ
sum [] = 0
sum (n ∷ l) = n + sum l

sum-insert :
    (k : String) (n : ℕ) (m : Map ℕ)
    → sum (values (insert k n m)) + or_zero (lookup k m) ≡ sum (values m) + n
unfolding insert lookup values
sum-insert k n [] = omega arith
sum-insert k n ((j, w) ∷ m) = ground (arith, sum-insert k n m)

sum-erase :
    (k : String) (m : Map ℕ)
    → Unique m
    → sum (values (erase k m)) + or_zero (lookup k m) ≡ sum (values m)
unfolding erase lookup values Unique
sum-erase k [] u = omega arith
sum-erase k ((j, w) ∷ m) u = ground (arith, sum-erase k m u.1, eq_iff j k, erase_absent k m)

-- The agents that are active are those of all parents, and each parent keeps its limit.
pub record IsCounted (l : SpawnLimits) (s : SpawnGuardState) : Type 0 where
  pub unique : Unique s.active_by_parent
  pub counted : s.active_concurrent ≡ sum (values s.active_by_parent)
  pub concurrent_le : s.active_concurrent ≤ l.max_concurrent
  pub children_le : (k : String) → children k s ≤ l.max_children_per_agent

initial-IsCounted : (l : SpawnLimits) → IsCounted l initial
unfolding Unique values lookup
initial-IsCounted l = record {
  unique = tt;
  counted = refl;
  concurrent_le = omega arith;
  children_le = λ k. omega arith;
}

record_spawn-IsCounted :
    (l : SpawnLimits) (s : SpawnGuardState) (parent : String)
    → s.active_concurrent < l.max_concurrent
    → children parent s < l.max_children_per_agent
    → IsCounted l s
    → IsCounted l (record_spawn s parent)
unfolding record_spawn
record_spawn-IsCounted l s parent room child v = record {
  unique = insert-Unique parent _ s.active_by_parent v.unique;
  counted = omega (arith, v.counted, sum-insert parent (children parent s + 1) s.active_by_parent);
  concurrent_le = omega (arith, room);
  children_le = λ k. ground (
    arith,
    v.children_le k,
    eq_iff parent k,
    lookup-insert parent k (children parent s + 1) s.active_by_parent,
  );
}

release-children :
    (parent k : String) (s : SpawnGuardState)
    → or_zero (lookup k (release parent (children parent s) s.active_by_parent))
      ≡ (if str_eq parent k then children parent s - 1 else children k s)
unfolding release
release-children parent k s = ground (
  arith,
  eq_iff parent k,
  lookup-erase parent k s.active_by_parent,
  lookup-insert parent k (children parent s - 1) s.active_by_parent,
)

release-sum :
    (parent : String) (s : SpawnGuardState)
    → Unique s.active_by_parent
    → 0 < children parent s
    → sum (values (release parent (children parent s) s.active_by_parent)) + 1
      ≡ sum (values s.active_by_parent)
unfolding release
release-sum parent s u h = ground (
  arith,
  sum-erase parent s.active_by_parent u,
  sum-insert parent (children parent s - 1) s.active_by_parent,
)

release-Unique : (parent : String) (n : ℕ) (m : Map ℕ) → Unique m → Unique (release parent n m)
unfolding release
release-Unique parent n m u =
    ground (arith, erase-Unique parent m u, insert-Unique parent (n - 1) m u)

record_completion-IsCounted :
    (l : SpawnLimits) (s : SpawnGuardState) (parent : String)
    → IsCounted l s
    → IsCounted l (record_completion s parent)
unfolding record_completion
record_completion-IsCounted l s parent v = elim (Bool-cases (leb (children parent s) 0)) [
  | inl untracked ↦ rw untracked v
  | inr some_left ↦
      let pos : 0 < children parent s = not-leb→lt (children parent s) 0 some_left in
      rw some_left (record {
        unique = release-Unique parent (children parent s) s.active_by_parent v.unique;
        counted = omega (arith, v.counted, release-sum parent s v.unique pos);
        concurrent_le = omega (arith, v.concurrent_le);
        children_le =
            λ k. ground (arith, v.children_le k, v.children_le parent, release-children parent k s);
      })
]

check_and_record-IsCounted :
    (l : SpawnLimits) (s : SpawnGuardState) (parent : String) (depth : ℕ)
    → IsCounted l s
    → IsCounted l (after s (check_and_record l s parent depth))
unfolding check_and_record check_spawn
check_and_record-IsCounted l s parent depth v = elim (Bool-cases (ltb l.max_spawn_depth depth)) [
  | inl deep ↦ rw deep v
  | inr shallow ↦ elim (Bool-cases (leb l.max_children_per_agent (children parent s))) [
    | inl full ↦ rw (shallow, full) v
    | inr child ↦ elim (Bool-cases (leb l.max_concurrent s.active_concurrent)) [
      | inl busy ↦ rw (shallow, child, busy) v
      | inr room ↦
          rw (shallow, child, room)
            (record_spawn-IsCounted l s parent
              (not-leb→lt l.max_concurrent s.active_concurrent room)
              (not-leb→lt l.max_children_per_agent (children parent s) child) v)
    ]
  ]
]

-- A direct call of `recordSpawn` is checked if the limits leave room for it.
abbrev pub IsChecked : SpawnLimits → SpawnGuardState → SpawnOp → Type 0
IsChecked l s (records parent) =
    (s.active_concurrent < l.max_concurrent) × (children parent s < l.max_children_per_agent)
IsChecked l s _ = Unit

abbrev pub AreChecked : SpawnLimits → SpawnGuardState → List SpawnOp → Type 0
AreChecked l s [] = Unit
AreChecked l s (op ∷ ops) = IsChecked l s op × AreChecked l (step l s op) ops

step-IsCounted :
    (l : SpawnLimits) (s : SpawnGuardState) (op : SpawnOp)
    → IsChecked l s op
    → IsCounted l s
    → IsCounted l (step l s op)
unfolding step
step-IsCounted l s (records parent) c v = record_spawn-IsCounted l s parent c.0 c.1 v
step-IsCounted l s (spawn parent depth) c v = check_and_record-IsCounted l s parent depth v
step-IsCounted l s (completion parent) c v = record_completion-IsCounted l s parent v
step-IsCounted l s restart c v = initial-IsCounted l

run_lem :
    (l : SpawnLimits) (s : SpawnGuardState) (ops : List SpawnOp)
    → AreChecked l s ops
    → IsCounted l s
    → IsCounted l (run l s ops)
unfolding run
run_lem l s [] c v = v
run_lem l s (op ∷ ops) c v = run_lem l (step l s op) ops c.1 (step-IsCounted l s op c.0 v)

-- After any calls of checkAndRecord, recordCompletion, reset and recordSpawn on a new guard, of which
-- each direct call of recordSpawn finds room within both limits, the count of active agents is the sum
-- over the parents and within `maxConcurrent`, and no parent has more than `maxChildrenPerAgent`.
pub spawn_run-IsCounted :
    (l : SpawnLimits) (ops : List SpawnOp)
    → AreChecked l initial ops
    → IsCounted l (run l initial ops)
spawn_run-IsCounted l ops c = run_lem l initial ops c (initial-IsCounted l)

check_and_record-ok :
    (l : SpawnLimits) (s s' : SpawnGuardState) (parent : String) (depth : ℕ)
    → check_and_record l s parent depth ≡ ok s'
    → (depth ≤ l.max_spawn_depth) × (record_spawn s parent ≡ s')
unfolding check_and_record check_spawn
check_and_record-ok l s s' parent depth h = ground (arith, h)

children-record_spawn :
    (parent k : String) (s : SpawnGuardState)
    → children k (record_spawn s parent)
      ≡ (if str_eq parent k then children parent s + 1 else children k s)
unfolding record_spawn
children-record_spawn parent k s =
    ground (arith, lookup-insert parent k (children parent s + 1) s.active_by_parent)

spawn_active :
    (parent : String) (s : SpawnGuardState)
    → (record_spawn s parent).active_concurrent - 1 ≡ s.active_concurrent
unfolding record_spawn
spawn_active parent s = omega arith

spawn_total :
    (parent : String) (s : SpawnGuardState)
    → (record_spawn s parent).total_spawns ≡ s.total_spawns + 1
unfolding record_spawn
spawn_total parent s = refl

completion-record_spawn :
    (parent k : String) (s : SpawnGuardState)
    → let s'' = record_completion (record_spawn s parent) parent in
      (s''.active_concurrent ≡ s.active_concurrent)
      × (children k s'' ≡ children k s)
      × (s''.total_spawns ≡ s.total_spawns + 1)
unfolding record_completion
completion-record_spawn parent k s =
    let own : children parent (record_spawn s parent) ≡ children parent s + 1 =
      (ground (arith, children-record_spawn parent parent s, eq_refl parent)) in
    let some_left : leb (children parent (record_spawn s parent)) 0 ≡ false = ground (arith, own) in
    let counts = release-children parent k (record_spawn s parent) in
    rw some_left (
      spawn_active parent s,
      ground (arith, counts, own, eq_iff parent k, children-record_spawn parent k s),
      spawn_total parent s,
    )

-- A spawn that is let through is of a depth within the limit, and its completion gives back every
-- count but that of all spawns.
pub completion_undoes_spawn :
    (l : SpawnLimits) (s s' : SpawnGuardState) (parent k : String) (depth : ℕ)
    → check_and_record l s parent depth ≡ ok s'
    → (depth ≤ l.max_spawn_depth)
      × ((record_completion s' parent).active_concurrent ≡ s.active_concurrent)
      × (children k (record_completion s' parent) ≡ children k s)
      × ((record_completion s' parent).total_spawns ≡ s.total_spawns + 1)
completion_undoes_spawn l s s' parent k depth h =
    let (shallow, e) = check_and_record-ok l s s' parent depth h in
    let undone =
      subst
        (λ r.
          ((record_completion r parent).active_concurrent ≡ s.active_concurrent)
          × (children k (record_completion r parent) ≡ children k s)
          × ((record_completion r parent).total_spawns ≡ s.total_spawns + 1))
        e (completion-record_spawn parent k s) in
    (shallow, undone.0, undone.1, undone.2)
