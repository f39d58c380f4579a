-- ===== src/Gateway/Delegation/Limits.antt =====
-- packages/gateway/src/delegation-manager.ts: only `delegate` makes the delegations and the counters of
-- the nodes grow, within the limits of the configuration.
use templar.Prelude.{
  ℕ, ◌-◌, ◌≤◌, true, false, Option, none, some, List, [], ◌∷◌, ◌++◌, String, eq_iff, ◌≡◌, refl, sym,
  subst, ◌∙◌, arith, Bool-cases, inl, inr,
}
use templar.Prelude.Maps.{
  Map, lookup, size, lookup-insert, lookup-erase, size-insert, size-erase-le,
}
use templar.Gateway.Registry.{NodeRegistry}
use templar.Gateway.Delegation.{
  DelegationManager, DelegationManagerConfig, Creating, ActiveDelegation, Run, Step, count_of,
  breaker_of, put_breaker, blocks, cleanup, at_node, ask_node, try_node, try_fallback,
}
use templar.Gateway.Delegation.Steps.{all_failed, next_fallback, waits}

abbrev pub setup : DelegationManager → DelegationManagerConfig × Option (List Creating)
setup m = (m.config, m.store)

-- The second manager has no more delegations than the first, and no counter is higher.
pub record IsWithin (m m' : DelegationManager) : Type 0 where
  pub config : setup m' ≡ setup m
  pub active : size m'.delegations ≤ size m.delegations
  pub counts : (node_id : String) → count_of m' node_id ≤ count_of m node_id

pub IsWithin-refl : (m : DelegationManager) → IsWithin m m
IsWithin-refl m = record { config = refl; active = omega arith; counts = λ n. omega arith }

pub IsWithin-trans : {a b c : DelegationManager} → IsWithin a b → IsWithin b c → IsWithin a c
IsWithin-trans p q = record {
  config = q.config ∙ p.config;
  active = omega (arith, p.active, q.active);
  counts = λ n. omega (arith, p.counts n, q.counts n);
}

pub cleanup-IsWithin : (m : DelegationManager) (id from : String) → IsWithin m (cleanup m id from)
unfolding cleanup
cleanup-IsWithin m id from = record {
  config = refl;
  active = size-erase-le id m.delegations;
  counts = λ n. ground (
    arith,
    eq_iff from n,
    lookup-erase from n m.node_active_counts,
    lookup-insert from n (count_of m from - 1) m.node_active_counts,
  );
}

at_node-size :
    (delegations : Map ActiveDelegation) (id node_id : String) (found : Option ActiveDelegation)
    → lookup id delegations ≡ found
    → size (at_node delegations id node_id found) ≤ size delegations
at_node-size delegations id node_id none h = omega arith
at_node-size delegations id node_id (some active) h =
    ground (arith, h, size-insert id (record active { current_node_id = node_id }) delegations)

ask_node-IsWithin :
    (registry : NodeRegistry) (m : DelegationManager) (run : Run) (node_id : String) (now : ℕ)
    → IsWithin m (ask_node registry m run node_id now).0
unfolding ask_node
ask_node-IsWithin registry m run node_id now = record {
  config = ground arith;
  active = ground (
    arith,
    at_node-size m.delegations run.request.delegation_id node_id
        (lookup run.request.delegation_id m.delegations) refl,
  );
  counts = λ n. ground arith;
}

pub try_node-IsWithin :
    (registry : NodeRegistry) (m : DelegationManager) (run : Run) (node_id : String) (now : ℕ)
    → IsWithin m (try_node registry m run node_id now).0
unfolding try_node
try_node-IsWithin registry m run node_id now =
    let (b, blocked) = blocks (breaker_of m node_id) now in
    let asked = ask_node-IsWithin registry (put_breaker m node_id b) run node_id now in
    record {
      config = ground (arith, asked.config);
      active = ground (arith, asked.active);
      counts = λ n. ground (arith, asked.counts n);
    }

try_fallback-IsWithin :
    (registry : NodeRegistry) (m : DelegationManager) (run : Run) (node_id : String) (now : ℕ)
    → IsWithin m (try_fallback registry m run node_id now).0
unfolding try_fallback
try_fallback-IsWithin registry m run node_id now =
    let (b, blocked) = blocks (breaker_of m node_id) now in
    let tried = try_node-IsWithin registry (put_breaker m node_id b) run node_id now in
    record {
      config = ground (arith, tried.config);
      active = ground (arith, tried.active);
      counts = λ n. ground (arith, tried.counts n);
    }

all_failed-IsWithin : (m : DelegationManager) (run : Run) → IsWithin m (all_failed m run).0
unfolding all_failed
all_failed-IsWithin m run =
    let clean = cleanup-IsWithin m run.request.delegation_id run.request.from_node_id in
    record {
      config = ground (arith, clean.config);
      active = ground (arith, clean.active);
      counts = λ n. ground (arith, clean.counts n);
    }

next_fallback-gone :
    (registry : NodeRegistry) (node_id : String) (untried : List String) (m : DelegationManager)
    (call : Run) (now : ℕ)
    → call.aborted ≡ true
    → next_fallback registry (node_id ∷ untried) m call now ≡ all_failed m call
unfolding next_fallback
next_fallback-gone registry node_id untried m call now gone = rw gone

next_fallback-waits :
    (registry : NodeRegistry) (node_id : String) (untried : List String) (m : DelegationManager)
    (call : Run) (now : ℕ)
    → call.aborted ≡ false
    → (try_fallback registry m call node_id now).2 ≡ true
    → (next_fallback registry (node_id ∷ untried) m call now).0
      ≡ waits (try_fallback registry m call node_id now).0 call node_id untried
unfolding next_fallback
next_fallback-waits registry node_id untried m call now alive asked = simp (asked, alive)

next_fallback-passes :
    (registry : NodeRegistry) (node_id : String) (untried : List String) (m : DelegationManager)
    (call : Run) (now : ℕ)
    → call.aborted ≡ false
    → (try_fallback registry m call node_id now).2 ≡ false
    → (next_fallback registry (node_id ∷ untried) m call now).0
      ≡ (next_fallback registry untried
          (try_fallback registry m call node_id now).0
          (record call { failed_nodes = call.failed_nodes ++ node_id ∷ [] })
          now).0
unfolding next_fallback
next_fallback-passes registry node_id untried m call now alive passed = simp (passed, alive)

-- One turn of the loop.
next-IsWithin :
    (registry : NodeRegistry) (node_id : String) (untried : List String) (m : DelegationManager)
    (call : Run) (now : ℕ)
    → IsWithin m
        (next_fallback registry untried
          (try_fallback registry m call node_id now).0
          (record call { failed_nodes = call.failed_nodes ++ node_id ∷ [] })
          now).0
    → IsWithin m (next_fallback registry (node_id ∷ untried) m call now).0
next-IsWithin registry node_id untried m call now rest =
    let m' = (try_fallback registry m call node_id now).0 in
    let tried = try_fallback-IsWithin registry m call node_id now in
    elim (Bool-cases call.aborted) [
      | inl gone ↦
          subst (λ (s : Step). IsWithin m s.0)
            (sym (next_fallback-gone registry node_id untried m call now gone))
            (all_failed-IsWithin m call)
      | inr alive ↦ elim (Bool-cases (try_fallback registry m call node_id now).2) [
        | inl asked ↦
            subst (IsWithin m)
              (sym (next_fallback-waits registry node_id untried m call now alive asked))
              (record { config = tried.config; active = tried.active; counts = tried.counts })
        | inr passed ↦
            subst (IsWithin m)
              (sym (next_fallback-passes registry node_id untried m call now alive passed)) rest
      ]
    ]

pub next_fallback-IsWithin :
    (registry : NodeRegistry) (untried : List String) (m : DelegationManager) (call : Run) (now : ℕ)
    → IsWithin m (next_fallback registry untried m call now).0
unfolding next_fallback
next_fallback-IsWithin registry [] m call now = all_failed-IsWithin m call
next_fallback-IsWithin registry (node_id ∷ untried) m call now =
    let m' = (try_fallback registry m call node_id now).0 in
    let tried = try_fallback-IsWithin registry m call node_id now in
    let rest =
      next_fallback-IsWithin registry untried m'
        (record call { failed_nodes = call.failed_nodes ++ node_id ∷ [] }) now in
    next-IsWithin registry node_id untried m call now (IsWithin-trans tried rest)
