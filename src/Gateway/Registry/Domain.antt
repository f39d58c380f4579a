-- ===== src/Gateway/Registry/Domain.antt =====
-- The nodes that packages/gateway/src/registry/node-registry.ts knows after each operation.
use templar.Prelude.{
  ℕ, true, false, not, ◌&&◌, ◌||◌, Option-cases, Bool-cases, String, str_eq, eq_iff, eq_refl, ◌≡◌,
  refl, arith, inl, inr,
}
use templar.Prelude.Maps.{lookup, has, insert, has-lookup}
use templar.Prelude.Domains.{has-insert, has-erase, has-some, has-insert_present}
use templar.Prelude.Results.{ok, err, IfOk}
use templar.Gateway.Errors.{node_already_registered}
use templar.Gateway.Registry.{
  sets_of, agents_of, add_agents, NodeRegistry, NodeCapabilities, register, deregister, after,
  new_node, mark_alive,
}

pub register-nodes :
    (r : NodeRegistry) (node_id : String) (capabilities : NodeCapabilities) (now : ℕ)
    → IfOk
        (λ r'.
          (has node_id r.nodes ≡ false)
          × ((k : String) → has k r'.nodes ≡ (str_eq node_id k || has k r.nodes)))
        (register r node_id capabilities now)
unfolding register
register-nodes r node_id capabilities now = elim (Bool-cases (has node_id r.nodes)) [
  | inl known ↦ rw known tt
  | inr unknown ↦
      rw unknown (refl, λ k. has-insert node_id k (new_node node_id capabilities now) r.nodes)
]

pub deregister-nodes :
    (r : NodeRegistry) (node_id k : String)
    → has k (after r (deregister r node_id)).nodes ≡ (not (str_eq node_id k) && has k r.nodes)
unfolding deregister
deregister-nodes r node_id k = elim (Option-cases (lookup node_id r.nodes)) [
  | inl unknown ↦ ground (arith, unknown, has-lookup k r.nodes, eq_iff node_id k)
  | inr (node, known) ↦ ground (arith, known, has-erase node_id k r.nodes)
]

pub mark_alive-nodes :
    (r : NodeRegistry) (node_id k : String) (now : ℕ)
    → has k (mark_alive r node_id now).nodes ≡ has k r.nodes
unfolding mark_alive
mark_alive-nodes r node_id k now = elim (Option-cases (lookup node_id r.nodes)) [
  | inl unknown ↦ ground (arith, unknown)
  | inr (node, known) ↦ ground (
    arith,
    known,
    has-some node_id node r.nodes known,
    has-insert_present node_id k (record node { is_alive = true; last_pong = now }) r.nodes,
  )
]

pub register-unknown :
    (r : NodeRegistry) (node_id : String) (capabilities : NodeCapabilities) (now : ℕ)
    → has node_id r.nodes ≡ false
    → (r' : NodeRegistry) × (register r node_id capabilities now ≡ ok r')
      × (has node_id r'.nodes ≡ true)
unfolding register
register-unknown r node_id capabilities now unknown = (
  record {
    nodes = insert node_id (new_node node_id capabilities now) r.nodes;
    cap_sets = insert node_id (sets_of capabilities) r.cap_sets;
    agent_index = add_agents node_id (agents_of capabilities) r.agent_index;
  },
  rw unknown,
  ground (
    arith,
    has-insert node_id node_id (new_node node_id capabilities now) r.nodes,
    eq_refl node_id,
  ),
)

pub register-known :
    (r : NodeRegistry) (node_id : String) (capabilities : NodeCapabilities) (now : ℕ)
    → has node_id r.nodes ≡ true
    → register r node_id capabilities now ≡ err (node_already_registered node_id)
unfolding register
register-known r node_id capabilities now known = rw known
