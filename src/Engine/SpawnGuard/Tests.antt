-- ===== src/Engine/SpawnGuard/Tests.antt =====
-- Runs of packages/engine/src/spawn-guard.ts.
use templar.Prelude.{arith, List, [], ◌∷◌}
use templar.Prelude.Maps.{lookup}
use templar.Engine.SpawnGuard.{
  SpawnOp, records, default_spawn_limits, initial, spawn, completion, run,
}
use templar.Engine.SpawnGuard.Counts.{IsCounted, spawn_run-IsCounted}

abbrev ops : List SpawnOp
ops = records "a" ∷ spawn "a" 2 ∷ spawn "b" 3 ∷ completion "b" ∷ completion "a" ∷ []

spawn_run-IsCounted_example : IsCounted default_spawn_limits (run default_spawn_limits initial ops)
unfolding lookup
spawn_run-IsCounted_example =
    spawn_run-IsCounted default_spawn_limits ops
      ((omega arith, omega arith), (tt, (tt, (tt, (tt, tt)))))
