-- ===== src/ModelRouter/Breaker.antt =====
-- packages/model-router/src/circuit-breaker.ts, the breaker per provider. The clock is an argument of each
-- call, and a comparison of a difference of times is one of sums.
pub mod Trips
mod Tests
use templar.Prelude.{
  ℕ, ◌+◌, Bool, true, false, Option, none, some, List, [], ◌∷◌, ◌++◌, String, leb, ltb,
  if◌then◌else◌, keep, length,
}
use templar.Prelude.Maps.{Map, lookup, insert}

pub record CircuitBreakerConfig : Type 0 where
  pub failure_threshold : ℕ
  pub failure_window_ms : ℕ
  pub reset_timeout_ms : ℕ
  pub half_open_max_attempts : ℕ

pub data CircuitState : Type 0 where
  closed open_ half_open : CircuitState

pub record ProviderCircuitState : Type 0 where
  pub state : CircuitState
  pub failures : List ℕ
  pub last_failure_time : ℕ
  pub opened_at : ℕ
  pub half_open_attempts : ℕ

pub record CircuitBreaker : Type 0 where
  pub config : CircuitBreakerConfig
  pub states : Map ProviderCircuitState

abbrev pub default_config : CircuitBreakerConfig
default_config = record {
  failure_threshold = 5;
  failure_window_ms = 60000;
  reset_timeout_ms = 30000;
  half_open_max_attempts = 1;
}

abbrev pub init : CircuitBreakerConfig → CircuitBreaker
init config = record { config = config; states = [] }

abbrev pub fresh : ProviderCircuitState
fresh = record {
  state = closed;
  failures = [];
  last_failure_time = 0;
  opened_at = 0;
  half_open_attempts = 0;
}

-- What `getOrCreate` returns; the calls below store it again.
abbrev pub or_fresh : Option ProviderCircuitState → ProviderCircuitState
or_fresh none = fresh
or_fresh (some s) = s

-- The transition from open to half-open.
pub after_timeout : CircuitBreakerConfig → ℕ → ProviderCircuitState → ProviderCircuitState × Bool
after_timeout config now s =
    if leb (s.opened_at + config.reset_timeout_ms) now
    then (record s { state = half_open; half_open_attempts = 0 }, true)
    else (s, false)

pub can_execute_in :
    CircuitBreakerConfig → ℕ → ProviderCircuitState → CircuitState → ProviderCircuitState × Bool
unfolding after_timeout
can_execute_in config now s closed = (s, true)
can_execute_in config now s open_ = after_timeout config now s
can_execute_in config now s half_open = (s, ltb s.half_open_attempts config.half_open_max_attempts)

pub can_execute : CircuitBreaker → String → ℕ → CircuitBreaker × Bool
unfolding can_execute_in
can_execute b provider now =
    let s = or_fresh (lookup provider b.states) in
    let (s', answer) = can_execute_in b.config now s s.state in
    (record b { states = insert provider s' b.states }, answer)

pub record_success : CircuitBreaker → String → CircuitBreaker
record_success b provider =
    let s = or_fresh (lookup provider b.states) in
    let s' : ProviderCircuitState = record s {
      state = closed;
      failures = [];
      half_open_attempts = 0;
    } in
    record b { states = insert provider s' b.states }

-- A failed probe.
pub probe_failed : CircuitBreakerConfig → ℕ → ProviderCircuitState → ProviderCircuitState
probe_failed config now s =
    let n = s.half_open_attempts + 1 in
    if leb config.half_open_max_attempts n
    then record s { half_open_attempts = n; state = open_; opened_at = now }
    else record s { half_open_attempts = n }

-- A failure of a provider that is not half-open: `failures` of the window, with this one.
pub recent : CircuitBreakerConfig → ℕ → List ℕ → List ℕ
recent config now failures = keep (λ t. ltb now (t + config.failure_window_ms)) failures ++ now ∷ []

pub request_failed : CircuitBreakerConfig → ℕ → ProviderCircuitState → ProviderCircuitState
unfolding recent
request_failed config now s =
    let failures = recent config now s.failures in
    if leb config.failure_threshold (length failures)
    then record s { failures = []; last_failure_time = now; state = open_; opened_at = now }
    else record s { failures = failures; last_failure_time = now }

pub failed : CircuitBreakerConfig → ℕ → ProviderCircuitState → CircuitState → ProviderCircuitState
unfolding probe_failed request_failed
failed config now s half_open = probe_failed config now s
failed config now s _ = request_failed config now s

pub record_failure : CircuitBreaker → String → ℕ → CircuitBreaker
unfolding failed
record_failure b provider now =
    let s = or_fresh (lookup provider b.states) in
    record b { states = insert provider (failed b.config now s s.state) b.states }

pub get_state_in :
    CircuitBreaker → String → ℕ → Option ProviderCircuitState → CircuitBreaker × CircuitState
get_state_in b provider now none = (b, closed)
get_state_in b provider now (some s) = elim s.state [
  | open_ ↦
      let (s', half) = after_timeout b.config now s in
      (record b { states = insert provider s' b.states }, s'.state)
  | _ ↦ (b, s.state)
]

pub get_state : CircuitBreaker → String → ℕ → CircuitBreaker × CircuitState
unfolding get_state_in
get_state b provider now = get_state_in b provider now (lookup provider b.states)

-- A series of requests to one provider that fail, each after the question of the router, and a series of
-- questions.
pub fail_all : CircuitBreaker → String → List ℕ → CircuitBreaker
fail_all b provider [] = b
fail_all b provider (now ∷ times) =
    fail_all (record_failure (can_execute b provider now).0 provider now) provider times

pub ask_all : CircuitBreaker → String → List ℕ → List Bool
ask_all b provider [] = []
ask_all b provider (now ∷ times) =
    let (b', answer) = can_execute b provider now in answer ∷ ask_all b' provider times
