-- ===== src/Gateway/Breaker.antt =====
-- packages/gateway/src/circuit-breaker.ts: the breaker of one node. The injected clock is an
-- argument of each call.
pub mod Probes
mod Tests
use templar.Prelude.{ℕ, ◌+◌, Bool, true, false, List, [], ◌∷◌, ltb, leb, if◌then◌else◌}

pub record CircuitBreakerConfig : Type 0 where
  pub threshold : ℕ
  pub cooldown_ms : ℕ

pub data BreakerState : Type 0 where
  closed open_ half_open : BreakerState

pub record CircuitBreaker : Type 0 where
  pub config : CircuitBreakerConfig
  pub failures : ℕ
  pub last_failure_at : ℕ
  pub probing : Bool

abbrev pub default_config : CircuitBreakerConfig
default_config = record { threshold = 5; cooldown_ms = 30000 }

abbrev pub init : CircuitBreakerConfig → CircuitBreaker
init config = record { config = config; failures = 0; last_failure_at = 0; probing = false }

unfoldable pub derive_state : CircuitBreaker → ℕ → BreakerState
derive_state b now =
    if ltb b.failures b.config.threshold
    then closed
    else if leb (b.last_failure_at + b.config.cooldown_ms) now
    then half_open
    else open_

unfoldable pub is_open : CircuitBreaker → ℕ → Bool
is_open b now = elim (derive_state b now) [ open_ ↦ true | _ ↦ false ]

pub record_failure : CircuitBreaker → ℕ → CircuitBreaker
record_failure b now = record b {
  failures = b.failures + 1;
  last_failure_at = now;
  probing = false;
}

pub record_success : CircuitBreaker → CircuitBreaker
record_success b = record b { failures = 0; last_failure_at = 0; probing = false }

unfoldable pub probe_in : CircuitBreaker → BreakerState → CircuitBreaker × Bool
probe_in b half_open = if b.probing then (b, false) else (record b { probing = true }, true)
probe_in b _ = (b, false)

unfoldable pub allows_probe : CircuitBreaker → ℕ → CircuitBreaker × Bool
unfolding probe_in
allows_probe b now = probe_in b (derive_state b now)

-- What the gateway tells the breaker and asks of it, each at a time.
pub data Call : Type 0 where
  fails probes : ℕ → Call
  succeeds : Call

-- The breaker after the calls, and the answers to the probes among them.
pub run : CircuitBreaker → List Call → CircuitBreaker × List Bool
run b [] = (b, [])
run b (fails now ∷ calls) = run (record_failure b now) calls
run b (succeeds ∷ calls) = run (record_success b) calls
run b (probes now ∷ calls) =
    let (b', granted) = allows_probe b now in let (b'', l) = run b' calls in (b'', granted ∷ l)
