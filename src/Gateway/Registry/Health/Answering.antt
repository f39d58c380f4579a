-- ===== src/Gateway/Registry/Health/Answering.antt =====
-- What two sweeps of packages/gateway/src/registry/health-monitor.ts find of a node that answers between
-- them.
use templar.Prelude.{
  ℕ, ◌≡◌, sym, ap, subst, ◌∙◌, true, false, Bool-cases, some, Option-cases, List, [], ◌∷◌, map,
  String, arith, inl, inr, str_eq, eq_iff, eq_refl, All,
}
use templar.Prelude.Maps.{Map, lookup, values, lookup-insert, All-of_lookup}
use templar.Gateway.Registry.{
  NodeRegistry, RegisteredNode, RegistryOp, pong, mark_alive, empty, step, run,
}
use templar.Gateway.Registry.Synced.{IsSynced, Matches, empty-IsSynced, step-IsSynced, run-IsSynced}
use templar.Gateway.Registry.Health.{Handlers, event_of, sweep, is_death_of, AreQuiet}
use templar.Gateway.Registry.Health.Sweep.{sweep_nodes_events, sweep_quiet, sweep-IsSynced}

pong-IsSynced :
    (r : NodeRegistry) (k : String) (now : ℕ) → IsSynced r → IsSynced (mark_alive r k now)
unfolding step
pong-IsSynced r k now v = step-IsSynced r (pong k now) v

no_deaths :
    (k : String) (m : Map RegisteredNode)
    → All (λ e. is_death_of k (event_of e.1) ≡ false) m
    → All (λ e. is_death_of k e ≡ false) (map event_of (values m))
unfolding values
no_deaths k [] h = tt
no_deaths k ((j, node) ∷ m) h = (h.0, no_deaths k m h.1)

answered :
    (r : NodeRegistry) (k : String) (now : ℕ) (node : RegisteredNode)
    → lookup k (mark_alive r k now).nodes ≡ some node
    → node.is_alive ≡ true
unfolding mark_alive
answered r k now node e = elim (Option-cases (lookup k r.nodes)) [
  | inl unknown ↦ ground (arith, unknown, e)
  | inr (old, known) ↦ ground (
    arith,
    known,
    e,
    eq_refl k,
    lookup-insert k k (record old { is_alive = true; last_pong = now }) r.nodes,
  )
]

no_death :
    (r : NodeRegistry) (k : String) (now : ℕ) (j : String) (node : RegisteredNode)
    → IsSynced (mark_alive r k now)
    → lookup j (mark_alive r k now).nodes ≡ some node
    → is_death_of k (event_of node) ≡ false
no_death r k now j node v e =
    let m : Matches j (some node) (lookup j (mark_alive r k now).cap_sets) =
      (subst (λ o. Matches j o (lookup j (mark_alive r k now).cap_sets)) e (v.matches j)) in
    elim (Bool-cases (str_eq node.node_id k)) [
      | inl same ↦
          let own : node.is_alive ≡ true =
            (answered r k now node (
              subst (λ i. lookup i (mark_alive r k now).nodes ≡ some node)
                (sym m.0 ∙ (eq_iff node.node_id k).0 same) e)) in
          ground (arith, own)
      | inr other ↦ ground (arith, other)
    ]

-- A node that answers after a sweep is not reported as dead by the next one, nor is it if it is not
-- registered; the handlers of the sweeps at most remove nodes.
pub answering_node_lives :
    (h : Handlers) (ops : List RegistryOp) (k : String) (now : ℕ)
    → AreQuiet h
    → All (λ e. is_death_of k e ≡ false) (sweep h (mark_alive (sweep h (run empty ops)).0 k now)).1
answering_node_lives h ops k now quiet =
    let s = (sweep h (run empty ops)).0 in
    let v = sweep-IsSynced h (run empty ops) quiet (run-IsSynced empty ops empty-IsSynced) in
    let r' = mark_alive s k now in
    let v' : IsSynced r' = pong-IsSynced s k now v in
    subst (All (λ e. is_death_of k e ≡ false))
      (sym (ap (λ p. p.1) (sweep_quiet h r' quiet) ∙ sweep_nodes_events h (values r'.nodes) r'))
      (no_deaths k r'.nodes (
        All-of_lookup (λ j node. is_death_of k (event_of node) ≡ false) r'.nodes v'.unique
          (λ j node e. no_death s k now j node v' e)))
