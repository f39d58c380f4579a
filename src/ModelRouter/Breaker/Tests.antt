-- ===== src/ModelRouter/Breaker/Tests.antt =====
-- Runs of packages/model-router/src/circuit-breaker.ts.
use templar.Prelude.{ℕ, ◌≡◌, refl, false, List, [], ◌∷◌, ◌++◌, arith}
use templar.Prelude.Maps.{lookup}
use templar.ModelRouter.Breaker.{default_config, init, can_execute, fail_all}
use templar.ModelRouter.Breaker.Trips.{trips}

abbrev times : List ℕ
times = 10 ∷ 20 ∷ 30 ∷ 40 ∷ []

trips_example :
    (can_execute (fail_all (init default_config) "openai" (times ++ 50 ∷ [])) "openai" 30049).1
    ≡ false
unfolding lookup
trips_example =
    trips (init default_config) "openai" 10 50 30049 times refl refl (omega arith) (omega arith)
      refl
