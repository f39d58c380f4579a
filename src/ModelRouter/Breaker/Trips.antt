-- ===== src/ModelRouter/Breaker/Trips.antt =====
-- When packages/model-router/src/circuit-breaker.ts refuses a provider.
use templar.Prelude.{
  ℕ, ◌+◌, ◌≤◌, ◌<◌, ◌≡◌, refl, sym, ap, subst, ◌∙◌, true, false, List, [], ◌∷◌, ◌++◌, String, arith,
  leb, ltb, if◌then◌else◌, keep, length, All, length-append, All-append,
}
use templar.Prelude.Maps.{lookup, lookup-insert_self}
use templar.ModelRouter.Breaker.{
  CircuitBreaker, CircuitBreakerConfig, ProviderCircuitState, closed, open_, half_open, or_fresh,
  after_timeout, can_execute_in, can_execute, recent, request_failed, failed, record_failure,
  fail_all, ask_all,
}

abbrev pub circuit : CircuitBreaker → String → ProviderCircuitState
circuit b provider = or_fresh (lookup provider b.states)

circuit-record_failure :
    (b : CircuitBreaker) (provider : String) (now : ℕ)
    → (circuit (record_failure b provider now) provider
        ≡ failed b.config now (circuit b provider) (circuit b provider).state)
      × ((record_failure b provider now).config ≡ b.config)
unfolding record_failure
circuit-record_failure b provider now = (ap or_fresh (lookup-insert_self provider _ b.states), refl)

-- Within a window no failure is forgotten.
keep_same :
    (config : CircuitBreakerConfig) (base now : ℕ) (failures : List ℕ)
    → All (λ t. base ≤ t) failures
    → now < base + config.failure_window_ms
    → keep (λ t. ltb now (t + config.failure_window_ms)) failures ≡ failures
keep_same config base now [] h e = refl
keep_same config base now (t ∷ failures) h e =
    ground (arith, h.0, e, keep_same config base now failures h.1 e)

can_execute_half_open :
    (b : CircuitBreaker) (provider : String) (now : ℕ)
    → (circuit b provider).state ≡ half_open
    → ((can_execute b provider now).1
        ≡ ltb (circuit b provider).half_open_attempts b.config.half_open_max_attempts)
      × (circuit (can_execute b provider now).0 provider ≡ circuit b provider)
      × ((can_execute b provider now).0.config ≡ b.config)
unfolding can_execute can_execute_in
can_execute_half_open b provider now e =
    let same = ap (can_execute_in b.config now (circuit b provider)) e in
    (
      ap (λ p. p.1) same,
      ap or_fresh (lookup-insert_self provider _ b.states) ∙ ap (λ p. p.0) same,
      refl,
    )

-- A half-open circuit that lets a request through lets every request through until an outcome is
-- recorded, however many have been let through before and whatever the limit on attempts.
pub half_open_unlimited :
    (b : CircuitBreaker) (provider : String) (times : List ℕ)
    → (circuit b provider).state ≡ half_open
    → (circuit b provider).half_open_attempts < b.config.half_open_max_attempts
    → All (λ answer. answer ≡ true) (ask_all b provider times)
unfolding ask_all
half_open_unlimited b provider [] e h = tt
half_open_unlimited b provider (now ∷ times) e h =
    let (answer, same, config) = can_execute_half_open b provider now e in
    (
      ground (arith, answer, h),
      half_open_unlimited (can_execute b provider now).0 provider times (ap (λ c. c.state) same ∙ e)
          (omega (
            arith,
            h,
            ap (λ c. c.half_open_attempts) same,
            ap (λ c. c.half_open_max_attempts) config,
          )),
    )

-- A closed circuit with its recent failures.
record IsFailing (b : CircuitBreaker) (provider : String) (base : ℕ) (failures : List ℕ)
    : Type 0 where
  is_closed : (circuit b provider).state ≡ closed
  has_failures : (circuit b provider).failures ≡ failures
  since : All (λ t. base ≤ t) failures

-- A circuit after a failure at `now` that makes `n` recent failures.
abbrev outcome : ProviderCircuitState → ℕ → ℕ → List ℕ → ℕ → ProviderCircuitState
outcome c threshold now failures n =
    if leb threshold n
    then record c { failures = []; last_failure_time = now; state = open_; opened_at = now }
    else record c { failures = failures; last_failure_time = now }

recent_same :
    (config : CircuitBreakerConfig) (base now : ℕ) (failures : List ℕ)
    → All (λ t. base ≤ t) failures
    → now < base + config.failure_window_ms
    → recent config now failures ≡ failures ++ now ∷ []
unfolding recent
recent_same config base now failures h e =
    ap (λ l. l ++ now ∷ []) (keep_same config base now failures h e)

next_failure :
    (b : CircuitBreaker) (provider : String) (base now : ℕ) (failures : List ℕ)
    → IsFailing b provider base failures
    → now < base + b.config.failure_window_ms
    → circuit (record_failure b provider now) provider
      ≡ outcome
          (circuit b provider)
          b.config.failure_threshold
          now
          (failures ++ now ∷ [])
          (length failures + 1)
unfolding failed request_failed
next_failure b provider base now failures v e =
    let c = circuit b provider in
    let th = b.config.failure_threshold in
    (circuit-record_failure b provider now).0
    ∙ ap (failed b.config now c) v.is_closed
    ∙ ap (λ l. outcome c th now (recent b.config now l) (length (recent b.config now l)))
        v.has_failures
    ∙ ap (λ l. outcome c th now l (length l)) (recent_same b.config base now failures v.since e)
    ∙ ap (outcome c th now (failures ++ now ∷ [])) (length-append failures (now ∷ []))

-- A question to a closed circuit changes nothing.
can_execute-closed :
    (b : CircuitBreaker) (provider : String) (now : ℕ)
    → (circuit b provider).state ≡ closed
    → (circuit (can_execute b provider now).0 provider ≡ circuit b provider)
      × ((can_execute b provider now).0.config ≡ b.config)
unfolding can_execute can_execute_in
can_execute-closed b provider now e = (
  ap or_fresh (lookup-insert_self provider _ b.states)
      ∙ ap (λ k. (can_execute_in b.config now (circuit b provider) k).0) e,
  refl,
)

asked-IsFailing :
    (b : CircuitBreaker) (provider : String) (base now : ℕ) (failures : List ℕ)
    → IsFailing b provider base failures
    → IsFailing (can_execute b provider now).0 provider base failures
asked-IsFailing b provider base now failures v =
    let same = (can_execute-closed b provider now v.is_closed).0 in
    record {
      is_closed = ap (λ s. s.state) same ∙ v.is_closed;
      has_failures = ap (λ s. s.failures) same ∙ v.has_failures;
      since = v.since;
    }

-- Failures within one window that are as many as the threshold open the circuit with the last.
fail_all-open :
    (b : CircuitBreaker) (provider : String) (base last : ℕ) (failures times : List ℕ)
    → IsFailing b provider base failures
    → All (λ t. (base ≤ t) × (t < base + b.config.failure_window_ms)) times
    → last < base + b.config.failure_window_ms
    → length failures + (length times + 1) ≡ b.config.failure_threshold
    → ((circuit (fail_all b provider (times ++ last ∷ [])) provider).state ≡ open_)
      × ((circuit (fail_all b provider (times ++ last ∷ [])) provider).opened_at ≡ last)
      × ((fail_all b provider (times ++ last ∷ [])).config ≡ b.config)
unfolding fail_all can_execute
fail_all-open b provider base last failures [] v h e n =
    let b1 = (can_execute b provider last).0 in
    let opens : leb b.config.failure_threshold (length failures + 1) ≡ true = ground (arith, n) in
    let c =
      next_failure b1 provider base last failures (asked-IsFailing b provider base last failures v)
        e in
    (
      ap (λ s. s.state) c ∙ ground (arith, opens),
      ap (λ s. s.opened_at) c ∙ ground (arith, opens),
      (circuit-record_failure b1 provider last).1,
    )
fail_all-open b provider base last failures (now ∷ times) v h e n =
    let b1 = (can_execute b provider now).0 in
    let b' = record_failure b1 provider now in
    let stays : leb b.config.failure_threshold (length failures + 1) ≡ false = ground (arith, n) in
    let v1 = asked-IsFailing b provider base now failures v in
    let c = next_failure b1 provider base now failures v1 h.0.1 in
    let config = (circuit-record_failure b1 provider now).1 in
    let v' : IsFailing b' provider base (failures ++ now ∷ []) = (record {
      is_closed = ap (λ s. s.state) c ∙ ground (arith, stays, v1.is_closed);
      has_failures = ap (λ s. s.failures) c ∙ ground (arith, stays);
      since = All-append (λ t. base ≤ t) failures (now ∷ []) v.since (h.0.0, tt);
    }) in
    let r =
      fail_all-open b' provider base last (failures ++ now ∷ []) times v'
        (subst (λ k. All (λ t. (base ≤ t) × (t < base + k.failure_window_ms)) times) (sym config)
          h.1)
        (subst (λ k. last < base + k.failure_window_ms) (sym config) e)
        (omega
          (arith, n, length-append failures (now ∷ []), ap (λ k. k.failure_threshold) config)) in
    (r.0, r.1, r.2 ∙ config)

can_execute_open :
    (b : CircuitBreaker) (provider : String) (now : ℕ)
    → (circuit b provider).state ≡ open_
    → (can_execute b provider now).1
      ≡ leb ((circuit b provider).opened_at + b.config.reset_timeout_ms) now
unfolding can_execute can_execute_in after_timeout
can_execute_open b provider now e =
    ap (λ p. p.1) (ap (can_execute_in b.config now (circuit b provider)) e) ∙ ground arith

-- If requests to a provider whose circuit is closed and has no failures fail `failure_threshold` times
-- within a window, each after the question whether it may be sent, then the next question is answered
-- with a refusal before `reset_timeout_ms` have passed since the last failure, and with leave after that.
pub trips :
    (b : CircuitBreaker) (provider : String) (base last now : ℕ) (times : List ℕ)
    → (circuit b provider).state ≡ closed
    → (circuit b provider).failures ≡ []
    → All (λ t. (base ≤ t) × (t < base + b.config.failure_window_ms)) times
    → last < base + b.config.failure_window_ms
    → length times + 1 ≡ b.config.failure_threshold
    → (can_execute (fail_all b provider (times ++ last ∷ [])) provider now).1
      ≡ leb (last + b.config.reset_timeout_ms) now
trips b provider base last now times shut none_yet h el n =
    let v : IsFailing b provider base [] = (record {
      is_closed = shut;
      has_failures = none_yet;
      since = tt;
    }) in
    let (o, t, c) = fail_all-open b provider base last [] times v h el (omega (arith, n)) in
    can_execute_open (fail_all b provider (times ++ last ∷ [])) provider now o
    ∙ ap (λ x. leb (x + (fail_all b provider (times ++ last ∷ [])).config.reset_timeout_ms) now) t
    ∙ ap (λ k. leb (last + k.reset_timeout_ms) now) c
