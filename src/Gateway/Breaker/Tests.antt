-- ===== src/Gateway/Breaker/Tests.antt =====
-- Runs of packages/gateway/src/circuit-breaker.ts.
use templar.Prelude.{◌≡◌, List, [], ◌∷◌}
use templar.Gateway.Breaker.{
  CircuitBreakerConfig, open_, init, derive_state, Call, fails, succeeds, probes, run,
}
use templar.Gateway.Breaker.Probes.{streak, derive_state-run}

abbrev two_failures : CircuitBreakerConfig
two_failures = record { threshold = 2; cooldown_ms = 100 }

abbrev calls : List Call
calls = fails 1 ∷ succeeds ∷ fails 5 ∷ probes 6 ∷ fails 9 ∷ probes 200 ∷ []

derive_state-run_example : derive_state (run (init two_failures) calls).0 50 ≡ open_
unfolding streak
derive_state-run_example = derive_state-run two_failures calls 50
