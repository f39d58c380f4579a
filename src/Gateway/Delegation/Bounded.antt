-- ===== src/Gateway/Delegation/Bounded.antt =====
-- packages/gateway/src/delegation-manager.ts: the limits of the configuration hold after every call.
use templar.Prelude.{
  ℕ, ◌+◌, ◌≤◌, ◌<◌, Bool, true, false, Option, none, List, [], ◌∷◌, String, if◌then◌else◌, leb, ◌≡◌,
  refl, sym, ap, subst, ◌∙◌, arith,
}
use templar.Prelude.Maps.{lookup, size, lookup-insert, size-insert-le}
use templar.Gateway.Registry.{NodeRegistry}
use templar.Gateway.Delegation.{
  Creating, DelegationManager, DelegationManagerConfig, DelegationRequest, Step, init, count_of,
}
use templar.Gateway.Delegation.Steps.{
  new_run, admit, delegate, begin, create_or_begin, after_create,
}
use templar.Gateway.Delegation.Answers.{find_run, cancel, sweep, cleanup_node, resume}
use templar.Gateway.Delegation.History.{
  Call, delegates, stores, cancels, answers, times_out, aborts, resumes, sweeps, cleans_up,
  disposes, step, run,
}
use templar.Gateway.Delegation.Limits.{IsWithin, setup}
use templar.Gateway.Delegation.Shrinks.{
  settle-IsWithin, abort-IsWithin, cancel_found-IsWithin, cancel_all-IsWithin,
  handle_result-IsWithin, resume_found-IsWithin, dispose-IsWithin, try_primary-IsWithin,
}

-- No more delegations are active than the configuration allows, and no node's counter is higher than it
-- allows.
pub record IsBounded (limits : DelegationManagerConfig) (m : DelegationManager) : Type 0 where
  pub config : setup m ≡ (limits, none)
  pub active : size m.delegations ≤ limits.max_active_delegations
  pub counts : (node_id : String) → count_of m node_id ≤ limits.max_per_node_delegations

within-IsBounded :
    {limits : DelegationManagerConfig} {m m' : DelegationManager}
    → IsWithin m m'
    → IsBounded limits m
    → IsBounded limits m'
within-IsBounded w b = record {
  config = w.config ∙ b.config;
  active = omega (arith, w.active, b.active);
  counts = λ n. omega (arith, w.counts n, b.counts n);
}

admit-IsBounded :
    (limits : DelegationManagerConfig) (m : DelegationManager) (request : DelegationRequest)
    (now : ℕ)
    → size m.delegations < limits.max_active_delegations
    → count_of m request.from_node_id < limits.max_per_node_delegations
    → IsBounded limits m
    → IsBounded limits (admit m request (count_of m request.from_node_id) now)
unfolding admit
admit-IsBounded limits m request now room turn b = record {
  config = b.config;
  active = omega (arith, room, size-insert-le request.delegation_id _ m.delegations);
  counts = λ n. ground (
    arith,
    turn,
    b.counts n,
    lookup-insert request.from_node_id n (count_of m request.from_node_id + 1) m.node_active_counts,
  );
}

guarded-IsBounded :
    {limits : DelegationManagerConfig} (full busy : Bool) (first second third : Step)
    → IsBounded limits first.0
    → IsBounded limits second.0
    → (full ≡ false → busy ≡ false → IsBounded limits third.0)
    → IsBounded limits (if full then first else if busy then second else third).0
guarded-IsBounded true busy first second third b c d = b
guarded-IsBounded false true first second third b c d = c
guarded-IsBounded false false first second third b c d = d refl refl

delegate-IsBounded :
    {limits : DelegationManagerConfig} (registry : NodeRegistry) (m : DelegationManager)
    (request : DelegationRequest) (now : ℕ)
    → IsBounded limits m
    → IsBounded limits (delegate registry m request now).0
unfolding delegate create_or_begin begin
delegate-IsBounded {limits = limits} registry m request now b =
    guarded-IsBounded (leb m.config.max_active_delegations (size m.delegations))
      (leb m.config.max_per_node_delegations (count_of m request.from_node_id)) _ _ _ b b
      (λ room turn.
        let allowed : size m.delegations < limits.max_active_delegations =
          ground (arith, room, ap (λ p. p.0) b.config) in
        let idle : count_of m request.from_node_id < limits.max_per_node_delegations =
          ground (arith, turn, ap (λ p. p.0) b.config) in
        subst
          (λ (o : Option (List Creating)).
            IsBounded limits (create_or_begin registry m request now o).0)
          (sym (ap (λ p. p.1) b.config))
          (within-IsBounded
            (try_primary-IsWithin registry (admit m request (count_of m request.from_node_id) now)
              (new_run m request) now)
            (admit-IsBounded limits m request now allowed idle b)))

step-IsBounded :
    {limits : DelegationManagerConfig} (m : DelegationManager) (call : Call)
    → IsBounded limits m
    → IsBounded limits (step m call).0
unfolding step cancel sweep cleanup_node resume after_create
step-IsBounded m (delegates registry request now) b = delegate-IsBounded registry m request now b
step-IsBounded {limits = limits} m (stores registry index now) b =
    subst (λ (o : Option (List Creating)). IsBounded limits (after_create registry m index now o).0)
      (sym (ap (λ p. p.1) b.config)) b
step-IsBounded m (cancels id reason) b =
    within-IsBounded (cancel_found-IsWithin m id reason (lookup id m.delegations)) b
step-IsBounded m (answers id status) b = within-IsBounded (handle_result-IsWithin m id status) b
step-IsBounded m (times_out ticket) b = within-IsBounded (settle-IsWithin m ticket none) b
step-IsBounded m (aborts ticket) b = within-IsBounded (abort-IsWithin m ticket) b
step-IsBounded m (resumes registry ticket now) b =
    within-IsBounded (resume_found-IsWithin registry m ticket (find_run ticket m.runs) now) b
step-IsBounded m (sweeps now) b = within-IsBounded (cancel_all-IsWithin m _ "ttl_expired") b
step-IsBounded m (cleans_up node_id) b = within-IsBounded (cancel_all-IsWithin m _ _) b
step-IsBounded m disposes b = within-IsBounded (dispose-IsWithin m) b

run-IsBounded :
    {limits : DelegationManagerConfig} (m : DelegationManager) (calls : List Call)
    → IsBounded limits m
    → IsBounded limits (run m calls)
unfolding run
run-IsBounded m [] b = b
run-IsBounded m (call ∷ calls) b = run-IsBounded (step m call).0 calls (step-IsBounded m call b)

-- After any sequence of calls, timers and answers of a manager without a store, no more delegations are
-- active than the configuration allows, and no node's counter of active delegations is higher than the
-- configuration allows.
pub delegation_run-IsBounded :
    (limits : DelegationManagerConfig) (calls : List Call)
    → IsBounded limits (run (init limits false) calls)
unfolding lookup
delegation_run-IsBounded limits calls =
    run-IsBounded (init limits false) calls
      (record { config = refl; active = omega arith; counts = λ n. omega arith })
