-- ===== src/Engine/SpawnGuard.antt =====
-- packages/engine/src/spawn-guard.ts, with the state of packages/core/src/spawn-types.ts. The limits
-- are the numbers that `validateNonNegativeInteger` lets through; a thrown error is a result.
pub mod Counts
mod Tests
use templar.Prelude.{
  ℕ, suc, ◌+◌, ◌-◌, Bool, Option, none, some, List, [], ◌∷◌, String, leb, ltb, if◌then◌else◌,
}
use templar.Prelude.Maps.{Map, lookup, insert, erase}
use templar.Prelude.Results.{Result, ok, err, ◌>>=◌}

pub record SpawnLimits : Type 0 where
  pub max_spawn_depth : ℕ
  pub max_children_per_agent : ℕ
  pub max_concurrent : ℕ

abbrev pub default_spawn_limits : SpawnLimits
default_spawn_limits = record {
  max_spawn_depth = 2;
  max_children_per_agent = 5;
  max_concurrent = 8;
}

pub record SpawnGuardState : Type 0 where
  pub active_concurrent : ℕ
  pub total_spawns : ℕ
  pub active_by_parent : Map ℕ

pub data SpawnError : Type 0 where
  depth_exceeded : ℕ → ℕ → SpawnError
  child_limit : String → ℕ → ℕ → SpawnError
  concurrency_limit : ℕ → ℕ → SpawnError

abbrev pub initial : SpawnGuardState
initial = record { active_concurrent = 0; total_spawns = 0; active_by_parent = [] }

-- `this.state.activeByParent.get(parentAgentId) ?? 0`
abbrev pub or_zero : Option ℕ → ℕ
or_zero none = 0
or_zero (some n) = n

abbrev pub children : String → SpawnGuardState → ℕ
children parent s = or_zero (lookup parent s.active_by_parent)

abbrev pub SpawnResult : Type 0 → Type 0
SpawnResult = Result SpawnError

pub check_spawn : SpawnLimits → SpawnGuardState → String → ℕ → SpawnResult SpawnGuardState
check_spawn l s parent depth =
    if ltb l.max_spawn_depth depth
    then err (depth_exceeded depth l.max_spawn_depth)
    else if leb l.max_children_per_agent (children parent s)
    then err (child_limit parent (children parent s) l.max_children_per_agent)
    else if leb l.max_concurrent s.active_concurrent
    then err (concurrency_limit s.active_concurrent l.max_concurrent)
    else ok s

pub record_spawn : SpawnGuardState → String → SpawnGuardState
record_spawn s parent = record {
  active_concurrent = s.active_concurrent + 1;
  total_spawns = s.total_spawns + 1;
  active_by_parent = insert parent (children parent s + 1) s.active_by_parent;
}

pub check_and_record : SpawnLimits → SpawnGuardState → String → ℕ → SpawnResult SpawnGuardState
unfolding check_spawn record_spawn
check_and_record l s parent depth = do
  s' ← check_spawn l s parent depth
  ok (record_spawn s' parent)

-- The children that are left after one of `n` completes.
pub release : String → ℕ → Map ℕ → Map ℕ
release parent n m = if leb n 1 then erase parent m else insert parent (n - 1) m

-- `Math.max(0, n - 1)` is the subtraction of ℕ.
pub record_completion : SpawnGuardState → String → SpawnGuardState
unfolding release
record_completion s parent = if leb (children parent s) 0 then s else record {
  active_concurrent = s.active_concurrent - 1;
  total_spawns = s.total_spawns;
  active_by_parent = release parent (children parent s) s.active_by_parent;
}

abbrev pub reset : SpawnGuardState → SpawnGuardState
reset s = initial

pub data SpawnOp : Type 0 where
  records : String → SpawnOp
  spawn : String → ℕ → SpawnOp
  completion : String → SpawnOp
  restart : SpawnOp

-- A spawn that is refused leaves the state as it was.
abbrev pub after : SpawnGuardState → SpawnResult SpawnGuardState → SpawnGuardState
after s (ok s') = s'
after s (err e) = s

pub step : SpawnLimits → SpawnGuardState → SpawnOp → SpawnGuardState
unfolding check_and_record record_completion
step l s (records parent) = record_spawn s parent
step l s (spawn parent depth) = after s (check_and_record l s parent depth)
step l s (completion parent) = record_completion s parent
step l s restart = reset s

pub run : SpawnLimits → SpawnGuardState → List SpawnOp → SpawnGuardState
unfolding step
run l s [] = s
run l s (op ∷ ops) = run l (step l s op) ops
