-- ===== src/Gateway/Registry/Health/Sweep.antt =====
-- What two sweeps of packages/gateway/src/registry/health-monitor.ts find of a node that does not answer
-- between them.
use templar.Prelude.{
  ◌≡◌, refl, sym, ap, subst, ◌∙◌, Bool, true, false, Bool-cases, Option, none, some, Option-cases,
  List, [], ◌∷◌, map, String, arith, inl, inr, if◌then◌else◌, str_eq, eq_iff, eq_refl, ◌&&◌, ◌||◌,
  any, All,
}
use templar.Prelude.Maps.{Map, lookup, values, lookup-insert, lookup-erase, All-of_lookup}
use templar.Gateway.Registry.{
  NodeRegistry, RegisteredNode, RegistryOp, deregister, after, do_deregister, missed, mark_dead,
  empty, step, run,
}
use templar.Gateway.Registry.Synced.{IsSynced, Matches, empty-IsSynced, step-IsSynced, run-IsSynced}
use templar.Gateway.Registry.Health.{
  Handlers, visit, event_of, sweep_nodes, sweep, node_dead, AreQuiet, deregistering,
}

pub sweep_nodes_events :
    (h : Handlers) (nodes : List RegisteredNode) (r : NodeRegistry)
    → (sweep_nodes h nodes r).1 ≡ map event_of nodes
unfolding sweep_nodes
sweep_nodes_events h [] r = refl
sweep_nodes_events h (node ∷ nodes) r =
    ap (event_of node ∷◌) (sweep_nodes_events h nodes (visit h node r))

visit_alive :
    (h : Handlers) (node : RegisteredNode) (r : NodeRegistry)
    → node.is_alive ≡ true
    → visit h node r ≡ mark_dead r node.node_id
unfolding visit
visit_alive h node r e = ap (λ b. if b then mark_dead r node.node_id else h.on_node_dead node r) e

visit_dead :
    (h : Handlers) (node : RegisteredNode) (r : NodeRegistry)
    → node.is_alive ≡ false
    → visit h node r ≡ h.on_node_dead node r
unfolding visit
visit_dead h node r e = ap (λ b. if b then mark_dead r node.node_id else h.on_node_dead node r) e

visit-IsSynced :
    (h : Handlers) (node : RegisteredNode) (r : NodeRegistry)
    → AreQuiet h
    → IsSynced r
    → IsSynced (visit h node r)
unfolding step
visit-IsSynced h node r quiet v = elim (Bool-cases node.is_alive) [
  | inl alive ↦
      subst IsSynced (sym (visit_alive h node r alive)) (step-IsSynced r (missed node.node_id) v)
  | inr dead ↦ subst IsSynced (sym (visit_dead h node r dead)) (quiet.dead_synced node r v)
]

sweep_nodes-IsSynced :
    (h : Handlers) (nodes : List RegisteredNode) (r : NodeRegistry)
    → AreQuiet h
    → IsSynced r
    → IsSynced (sweep_nodes h nodes r).0
unfolding sweep_nodes
sweep_nodes-IsSynced h [] r quiet v = v
sweep_nodes-IsSynced h (node ∷ nodes) r quiet v =
    sweep_nodes-IsSynced h nodes (visit h node r) quiet (visit-IsSynced h node r quiet v)

abbrev pub dies_in : String → List RegisteredNode → Bool
dies_in k = any (λ node. node.is_alive && str_eq node.node_id k)

abbrev marked : Bool → Option RegisteredNode → Option RegisteredNode
marked b none = none
marked b (some node) = if b then some (record node { is_alive = false }) else some node

lookup-mark_dead :
    (r : NodeRegistry) (node_id k : String)
    → lookup k (mark_dead r node_id).nodes ≡ marked (str_eq node_id k) (lookup k r.nodes)
unfolding mark_dead
lookup-mark_dead r node_id k = elim (Option-cases (lookup node_id r.nodes)) [
  | inl unknown ↦ elim (Option-cases (lookup k r.nodes)) [
    | inl e ↦ ground (arith, unknown, e)
    | inr (node, e) ↦ ground (arith, unknown, e, eq_iff node_id k)
  ]
  | inr (node, known) ↦ elim (Option-cases (lookup k r.nodes)) [
    | inl e ↦ ground (
      arith,
      known,
      e,
      eq_iff node_id k,
      lookup-insert node_id k (record node { is_alive = false }) r.nodes,
    )
    | inr (node', e) ↦ ground (
      arith,
      known,
      e,
      eq_iff node_id k,
      lookup-insert node_id k (record node { is_alive = false }) r.nodes,
    )
  ]
]

marked-false : (o : Option RegisteredNode) → marked false o ≡ o
marked-false none = refl
marked-false (some node) = refl

-- What is left of a node after a visit is the node as it was, marked if the visit was to it.
visit-marked :
    (h : Handlers) (node : RegisteredNode) (r : NodeRegistry) (k : String) (n : RegisteredNode)
    → AreQuiet h
    → lookup k (visit h node r).nodes ≡ some n
    → marked (node.is_alive && str_eq node.node_id k) (lookup k r.nodes) ≡ some n
visit-marked h node r k n quiet e = elim (Bool-cases node.is_alive) [
  | inl alive ↦
      ap (λ b. marked (b && str_eq node.node_id k) (lookup k r.nodes)) alive
      ∙ sym (lookup-mark_dead r node.node_id k)
      ∙ ap (λ s. lookup k s.nodes) (sym (visit_alive h node r alive))
      ∙ e
  | inr dead ↦
      ap (λ b. marked (b && str_eq node.node_id k) (lookup k r.nodes)) dead
      ∙ marked-false (lookup k r.nodes)
      ∙ quiet.dead_drops node r k n
          (ap (λ s. lookup k s.nodes) (sym (visit_dead h node r dead)) ∙ e)
]

marked-marked : (b c : Bool) (o : Option RegisteredNode) → marked c (marked b o) ≡ marked (b || c) o
marked-marked b c none = refl
marked-marked false c (some node) = refl
marked-marked true false (some node) = refl
marked-marked true true (some node) = refl

some-of_marked :
    (b : Bool) (o : Option RegisteredNode) (n : RegisteredNode)
    → marked b o ≡ some n
    → (m : RegisteredNode) × (o ≡ some m)
some-of_marked b none n h = cc
some-of_marked b (some m) n h = (m, refl)

sweep_nodes-marked :
    (h : Handlers) (nodes : List RegisteredNode) (r : NodeRegistry) (k : String)
    (n : RegisteredNode)
    → AreQuiet h
    → lookup k (sweep_nodes h nodes r).0.nodes ≡ some n
    → marked (dies_in k nodes) (lookup k r.nodes) ≡ some n
unfolding sweep_nodes
sweep_nodes-marked h [] r k n quiet e = marked-false (lookup k r.nodes) ∙ e
sweep_nodes-marked h (node ∷ nodes) r k n quiet e =
    let rest = sweep_nodes-marked h nodes (visit h node r) k n quiet e in
    let (m, found) = some-of_marked (dies_in k nodes) (lookup k (visit h node r).nodes) n rest in
    let before = visit-marked h node r k m quiet found in
    sym
      (marked-marked (node.is_alive && str_eq node.node_id k) (dies_in k nodes) (lookup k r.nodes))
    ∙ ap (marked (dies_in k nodes)) (before ∙ sym found)
    ∙ rest

-- A live node under its own id is among those that the loop marks.
dies_in-values :
    (k : String) (node : RegisteredNode) (m : Map RegisteredNode)
    → lookup k m ≡ some node
    → node.node_id ≡ k
    → node.is_alive ≡ true
    → dies_in k (values m) ≡ true
unfolding lookup values
dies_in-values k node [] e id alive = cc
dies_in-values k node ((j, w) ∷ m) e id alive =
    ground (arith, eq_refl k, eq_iff node.node_id k, eq_iff w.node_id k, dies_in-values k node m)

-- After a sweep no node is alive.
sweep-dead :
    (h : Handlers) (r : NodeRegistry) (k : String) (node : RegisteredNode)
    → AreQuiet h
    → IsSynced r
    → lookup k (sweep_nodes h (values r.nodes) r).0.nodes ≡ some node
    → node.is_alive ≡ false
sweep-dead h r k node quiet v e = elim (Option-cases (lookup k r.nodes)) [
  | inl unknown ↦ ground (arith, unknown, sweep_nodes-marked h (values r.nodes) r k node quiet e)
  | inr (old, known) ↦
      let m : Matches k (some old) (lookup k r.cap_sets) =
        (subst (λ o. Matches k o (lookup k r.cap_sets)) known (v.matches k)) in
      ground (
        arith,
        e,
        known,
        sweep_nodes-marked h (values r.nodes) r k node quiet e,
        dies_in-values k old r.nodes known m.0,
      )
]

deaths :
    (m : Map RegisteredNode)
    → All (λ e. e.1.is_alive ≡ false) m
    → map event_of (values m) ≡ map node_dead (values m)
unfolding values
deaths [] h = refl
deaths ((k, node) ∷ m) h = ground (arith, h.0, deaths m h.1)

pub sweep_quiet :
    (h : Handlers) (r : NodeRegistry) → AreQuiet h → sweep h r ≡ sweep_nodes h (values r.nodes) r
unfolding sweep
sweep_quiet h r quiet = ap (λ s. sweep_nodes h (values s.nodes) s) (quiet.sweep_keeps r)

pub sweep-IsSynced :
    (h : Handlers) (r : NodeRegistry) → AreQuiet h → IsSynced r → IsSynced (sweep h r).0
sweep-IsSynced h r quiet v =
    subst (λ p. IsSynced p.0) (sym (sweep_quiet h r quiet))
      (sweep_nodes-IsSynced h (values r.nodes) r quiet v)

-- If no node answers between two sweeps, whose handlers at most remove nodes, as the gateway's do, then
-- the second sweep reports each node that is still registered as dead, and pings none.
pub silent_nodes_die :
    (h : Handlers) (ops : List RegistryOp)
    → AreQuiet h
    → (sweep h (sweep h (run empty ops)).0).1
      ≡ map node_dead (values (sweep h (run empty ops)).0.nodes)
silent_nodes_die h ops quiet =
    let r = run empty ops in
    let v = run-IsSynced empty ops empty-IsSynced in
    let r' = (sweep h r).0 in
    let v' = sweep-IsSynced h r quiet v in
    ap (λ p. p.1) (sweep_quiet h r' quiet)
    ∙ sweep_nodes_events h (values r'.nodes) r'
    ∙ deaths r'.nodes (
        All-of_lookup (λ k node. node.is_alive ≡ false) r'.nodes v'.unique
          (λ k node e.
            sweep-dead h r k node quiet v
              (ap (λ p. lookup k p.0.nodes) (sym (sweep_quiet h r quiet)) ∙ e)))

deregister-lookup :
    (r : NodeRegistry) (node_id k : String) (n : RegisteredNode)
    → lookup k (after r (deregister r node_id)).nodes ≡ some n
    → lookup k r.nodes ≡ some n
unfolding deregister
deregister-lookup r node_id k n e = elim (Option-cases (lookup node_id r.nodes)) [
  | inl unknown ↦ ground (arith, e, unknown)
  | inr (node, known) ↦ ground (arith, e, known, lookup-erase node_id k r.nodes)
]

pub deregistering-AreQuiet : AreQuiet deregistering
unfolding step
deregistering-AreQuiet = record {
  sweep_keeps = λ r. refl;
  dead_synced = λ node r v. step-IsSynced r (do_deregister node.node_id) v;
  dead_drops = λ node r k n e. deregister-lookup r node.node_id k n e;
}
