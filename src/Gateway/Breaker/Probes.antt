-- ===== src/Gateway/Breaker/Probes.antt =====
-- When the breaker of packages/gateway/src/circuit-breaker.ts lets a request through.
use templar.Prelude.{
  ℕ, ◌+◌, ◌≤◌, ◌<◌, ◌≡◌, refl, Bool, true, false, List, [], ◌∷◌, arith, ltb, leb, if◌then◌else◌,
  length, keep,
}
use templar.Gateway.Breaker.{
  CircuitBreaker, CircuitBreakerConfig, closed, open_, half_open, init, derive_state, is_open,
  record_failure, record_success, allows_probe, Call, fails, probes, succeeds, run,
}

-- Failures since the last success, and the time of the last one, read off the calls themselves.
unfoldable pub streak : ℕ × ℕ → List Call → ℕ × ℕ
streak s [] = s
streak (n, t) (fails now ∷ calls) = streak (n + 1, now) calls
streak s (succeeds ∷ calls) = streak (0, 0) calls
streak s (probes now ∷ calls) = streak s calls

probe_keeps :
    (b : CircuitBreaker) (now : ℕ)
    → ((allows_probe b now).0.failures ≡ b.failures)
      × ((allows_probe b now).0.last_failure_at ≡ b.last_failure_at)
      × ((allows_probe b now).0.config ≡ b.config)
unfolding allows_probe derive_state
probe_keeps b now = ground arith

run-streak :
    (calls : List Call) (b : CircuitBreaker)
    → let s = streak (b.failures, b.last_failure_at) calls in
      ((run b calls).0.failures ≡ s.0)
      × ((run b calls).0.last_failure_at ≡ s.1)
      × ((run b calls).0.config ≡ b.config)
unfolding run streak record_failure record_success
run-streak [] b = (refl, refl, refl)
run-streak (fails now ∷ calls) b = run-streak calls _
run-streak (succeeds ∷ calls) b = run-streak calls _
run-streak (probes now ∷ calls) b =
    ground (arith, probe_keeps b now, run-streak calls (allows_probe b now).0)

-- The state of a breaker at any time is read off the failures since the last success: closed
-- while they are fewer than the threshold, else half-open from the end of the cooldown after the
-- last of them on, and open before.
pub derive_state-run :
    (config : CircuitBreakerConfig) (calls : List Call) (now : ℕ)
    → derive_state (run (init config) calls).0 now ≡ (
        if ltb (streak (0, 0) calls).0 config.threshold
        then closed
        else if leb ((streak (0, 0) calls).1 + config.cooldown_ms) now
        then half_open
        else open_)
unfolding derive_state
derive_state-run config calls now = ground (arith, run-streak calls (init config))

granted : List Bool → ℕ
granted l = length (keep (λ b. b) l)

-- Probes at the given times, with no outcome recorded between them.
pub probe_all : CircuitBreaker → List ℕ → List Bool
probe_all b [] = []
probe_all b (now ∷ times) = let (b', ok) = allows_probe b now in ok ∷ probe_all b' times

pub number_granted : CircuitBreaker → List ℕ → ℕ
unfolding granted
number_granted b times = granted (probe_all b times)

none_granted : (b : CircuitBreaker) (times : List ℕ) → b.probing ≡ true → number_granted b times ≡ 0
unfolding number_granted probe_all allows_probe derive_state
none_granted b [] h = refl
none_granted b (now ∷ times) h = ground (arith, none_granted b times)

-- Between two recorded outcomes at most one probe is granted, whenever the probes are made.
pub one_probe : (b : CircuitBreaker) (times : List ℕ) → number_granted b times ≤ 1
unfolding number_granted probe_all allows_probe derive_state
one_probe b [] = omega arith
one_probe b (now ∷ times) =
    ground (arith, one_probe b times, none_granted (record b { probing = true }) times)

-- A failure that reaches the threshold blocks every request until the cooldown has passed.
pub blocked_in_cooldown :
    (b : CircuitBreaker) (t now : ℕ)
    → b.config.threshold ≤ b.failures + 1
    → now < t + b.config.cooldown_ms
    → (is_open (record_failure b t) now ≡ true)
      × ((allows_probe (record_failure b t) now).1 ≡ false)
unfolding record_failure is_open allows_probe derive_state
blocked_in_cooldown b t now h early = ground arith

-- After a failure that reaches a positive threshold, and after the cooldown, the breaker is not
-- open, the first probe is granted, and a success then closes it.
pub recovers :
    (b : CircuitBreaker) (t now : ℕ)
    → 0 < b.config.threshold
    → b.config.threshold ≤ b.failures + 1
    → t + b.config.cooldown_ms ≤ now
    → let b' = record_failure b t in
      let (probed, granted) = allows_probe b' now in
      (is_open b' now ≡ false)
      × (granted ≡ true)
      × (derive_state (record_success probed) now ≡ closed)
unfolding record_failure record_success is_open allows_probe derive_state
recovers b t now pos h late = ground arith
