-- ===== src/Gateway/Registry/Synced.antt =====
-- The pre-computed sets of packages/gateway/src/registry/node-registry.ts belong to the nodes.
use templar.Prelude.{
  ℕ, ◌≡◌, refl, sym, ap, subst, ◌∙◌, Bool, true, false, Bool-cases, Option, none, some,
  Option-cases, List, [], ◌∷◌, String, arith, inl, inr, if◌then◌else◌, str_eq, eq_iff, ◌&&◌, ◌||◌,
  all, keep, All,
}
use templar.Prelude.Maps.{
  Map, lookup, has, insert, values, Unique, insert-Unique, erase-Unique, All-of_lookup,
  lookup-insert, lookup-erase,
}
use templar.Gateway.Registry.{
  NodeRegistry, RegisteredNode, NodeCapabilities, TaskRequirements, CapabilitySets, RegistryOp,
  do_register, do_deregister, pong, missed, do_clear, empty, register, deregister, mark_alive,
  mark_dead, after, step, run, new_node, remove_node, sets_of, meets, find_by_requirements, member,
  tools_ok, channel_ok,
}

-- A node under a key has that id and its sets; there are no other sets.
abbrev pub Matches : String → Option RegisteredNode → Option CapabilitySets → Type 0
Matches k none sets = sets ≡ none
Matches k (some node) sets = (node.node_id ≡ k) × (sets ≡ some (sets_of node.capabilities))

pub record IsSynced (r : NodeRegistry) : Type 0 where
  pub unique : Unique r.nodes
  pub matches : (k : String) → Matches k (lookup k r.nodes) (lookup k r.cap_sets)

pub empty-IsSynced : IsSynced empty
unfolding Unique lookup
empty-IsSynced = record { unique = tt; matches = λ k. refl }

insert-Matches :
    (k j : String) (node : RegisteredNode) (o : Option RegisteredNode)
    (sets sets' : Option CapabilitySets)
    → node.node_id ≡ k
    → Matches j o sets
    → sets' ≡ (if str_eq k j then some (sets_of node.capabilities) else sets)
    → Matches j (if str_eq k j then some node else o) sets'
insert-Matches k j node o sets sets' id v e = elim (Bool-cases (str_eq k j)) [
  | inl same ↦ rw same (id ∙ (eq_iff k j).0 same, e ∙ ground (arith, same))
  | inr other ↦ rw other (subst (Matches j o) (sym (e ∙ ground (arith, other))) v)
]

register-IsSynced :
    (r : NodeRegistry) (node_id : String) (capabilities : NodeCapabilities) (now : ℕ)
    → IsSynced r
    → IsSynced (after r (register r node_id capabilities now))
unfolding register
register-IsSynced r node_id capabilities now v = elim (Bool-cases (has node_id r.nodes)) [
  | inl known ↦ rw known v
  | inr fresh ↦
      let node = new_node node_id capabilities now in
      rw fresh (record {
        unique = insert-Unique node_id node r.nodes v.unique;
        matches = λ k. rw (lookup-insert node_id k node r.nodes) (
            insert-Matches node_id k node (lookup k r.nodes) (lookup k r.cap_sets) _ refl
              (v.matches k) (lookup-insert node_id k (sets_of capabilities) r.cap_sets));
      })
]

erase-Matches :
    (k j : String) (o : Option RegisteredNode) (sets : Option CapabilitySets)
    → Matches j o sets
    → Matches j (if str_eq k j then none else o) (if str_eq k j then none else sets)
erase-Matches k j o sets v = elim (Bool-cases (str_eq k j)) [
  | inl same ↦ rw same refl
  | inr other ↦ rw other v
]

remove_node-IsSynced :
    (r : NodeRegistry) (node_id : String) (node : RegisteredNode)
    → IsSynced r
    → IsSynced (remove_node r node_id node)
remove_node-IsSynced r node_id node v = record {
  unique = erase-Unique node_id r.nodes v.unique;
  matches = λ k.
      rw (lookup-erase node_id k r.nodes, lookup-erase node_id k r.cap_sets)
        (erase-Matches node_id k (lookup k r.nodes) (lookup k r.cap_sets) (v.matches k));
}

-- A node replaced by one of the same id and capabilities.
replace-IsSynced :
    (r : NodeRegistry) (node_id : String) (node node' : RegisteredNode)
    → lookup node_id r.nodes ≡ some node
    → node'.node_id ≡ node.node_id
    → node'.capabilities ≡ node.capabilities
    → IsSynced r
    → IsSynced (record r { nodes = insert node_id node' r.nodes })
replace-IsSynced r node_id node node' known id caps v = record {
  unique = insert-Unique node_id node' r.nodes v.unique;
  matches = λ k.
      let m : Matches node_id (some node) (lookup node_id r.cap_sets) =
        (subst (λ o. Matches node_id o (lookup node_id r.cap_sets)) known (v.matches node_id)) in
      rw (lookup-insert node_id k node' r.nodes) (
        insert-Matches node_id k node' (lookup k r.nodes) (lookup k r.cap_sets)
          (lookup k r.cap_sets) (id ∙ m.0) (v.matches k)
          (ground (arith, eq_iff node_id k, m.1, ap sets_of caps)));
}

pub step-IsSynced : (r : NodeRegistry) (op : RegistryOp) → IsSynced r → IsSynced (step r op)
unfolding step deregister mark_alive mark_dead
step-IsSynced r (do_register node_id capabilities now) v =
    register-IsSynced r node_id capabilities now v
step-IsSynced r (do_deregister node_id) v = elim (Option-cases (lookup node_id r.nodes)) [
  | inl unknown ↦
      let e : step r (do_deregister node_id) ≡ r = ground (arith, unknown) in
      subst IsSynced (sym e) v
  | inr (node, known) ↦
      let e : step r (do_deregister node_id) ≡ remove_node r node_id node = ground (arith, known) in
      subst IsSynced (sym e) (remove_node-IsSynced r node_id node v)
]
step-IsSynced r (pong node_id now) v = elim (Option-cases (lookup node_id r.nodes)) [
  | inl unknown ↦
      let e : step r (pong node_id now) ≡ r = ground (arith, unknown) in subst IsSynced (sym e) v
  | inr (node, known) ↦
      let node' : RegisteredNode = record node { is_alive = true; last_pong = now } in
      let e : step r (pong node_id now) ≡ record r { nodes = insert node_id node' r.nodes } =
        (ground (arith, known)) in
      subst IsSynced (sym e) (replace-IsSynced r node_id node node' known refl refl v)
]
step-IsSynced r (missed node_id) v = elim (Option-cases (lookup node_id r.nodes)) [
  | inl unknown ↦
      let e : step r (missed node_id) ≡ r = ground (arith, unknown) in subst IsSynced (sym e) v
  | inr (node, known) ↦
      let node' : RegisteredNode = record node { is_alive = false } in
      let e : step r (missed node_id) ≡ record r { nodes = insert node_id node' r.nodes } =
        (ground (arith, known)) in
      subst IsSynced (sym e) (replace-IsSynced r node_id node node' known refl refl v)
]
step-IsSynced r do_clear v = empty-IsSynced

pub run-IsSynced : (r : NodeRegistry) (ops : List RegistryOp) → IsSynced r → IsSynced (run r ops)
unfolding run
run-IsSynced r [] v = v
run-IsSynced r (op ∷ ops) v = run-IsSynced (step r op) ops (step-IsSynced r op v)

-- What a node offers, said without the sets of the registry.
unfoldable pub offers : String → List String → Bool
offers x [] = false
offers x (y ∷ l) = if str_eq y x then true else offers x l

unfoldable pub offers_all : List String → List String → Bool
offers_all [] offered = true
offers_all (x ∷ l) offered = if offers x offered then offers_all l offered else false

abbrev pub wanted_tools : Option (List String) → List String
wanted_tools none = []
wanted_tools (some l) = l

abbrev pub offers_channel : Option String → List String → Bool
offers_channel none channels = true
offers_channel (some c) channels = str_eq c "" || offers c channels

-- A live node that offers the agent type, every tool and the channel, unless that is absent or empty.
abbrev pub satisfies : TaskRequirements → RegisteredNode → Bool
satisfies q node =
    node.is_alive
    && (offers q.agent_type node.capabilities.agent_types
        && (offers_all (wanted_tools q.tools) node.capabilities.tools
            && offers_channel q.channel node.capabilities.channels))

member-offers : (x : String) (l : List String) → member x l ≡ offers x l
unfolding offers
member-offers x [] = refl
member-offers x (y ∷ l) = ground (arith, member-offers x l)

all-offers_all : (l offered : List String) → all (λ t. member t offered) l ≡ offers_all l offered
unfolding offers_all
all-offers_all [] offered = refl
all-offers_all (x ∷ l) offered = ground (arith, member-offers x offered, all-offers_all l offered)

tools_ok-offers_all :
    (o : Option (List String)) (offered : List String)
    → tools_ok o offered ≡ offers_all (wanted_tools o) offered
unfolding offers_all
tools_ok-offers_all none offered = refl
tools_ok-offers_all (some l) offered = all-offers_all l offered

channel_ok-offers_channel :
    (o : Option String) (channels : List String) → channel_ok o channels ≡ offers_channel o channels
channel_ok-offers_channel none channels = refl
channel_ok-offers_channel (some c) channels = ground (arith, member-offers c channels)

meets-satisfies :
    (q : TaskRequirements) (node : RegisteredNode)
    → (node.is_alive && meets q (some (sets_of node.capabilities))) ≡ satisfies q node
unfolding meets
meets-satisfies q node = ground (
  arith,
  member-offers q.agent_type node.capabilities.agent_types,
  tools_ok-offers_all q.tools node.capabilities.tools,
  channel_ok-offers_channel q.channel node.capabilities.channels,
)

keep-agrees :
    (p q : RegisteredNode → Bool) (m : Map RegisteredNode)
    → All (λ e. p e.1 ≡ q e.1) m
    → keep p (values m) ≡ keep q (values m)
unfolding values
keep-agrees p q [] h = refl
keep-agrees p q ((k, node) ∷ m) h = ground (arith, h.0, keep-agrees p q m h.1)

-- After any operations on an empty registry the search finds exactly the live nodes that registered with
-- the agent type, with every tool and with the channel of the requirements, in the registry's order; no
-- tools and an absent or empty channel ask for nothing.
pub find_by_requirements_lem :
    (ops : List RegistryOp) (q : TaskRequirements)
    → find_by_requirements (run empty ops) q ≡ keep (satisfies q) (values (run empty ops).nodes)
unfolding find_by_requirements
find_by_requirements_lem ops q =
    let r = run empty ops in
    let v = run-IsSynced empty ops empty-IsSynced in
    keep-agrees (λ node. node.is_alive && meets q (lookup node.node_id r.cap_sets)) (satisfies q)
      r.nodes
      (All-of_lookup _ r.nodes v.unique (λ k node e.
        let m : Matches k (some node) (lookup k r.cap_sets) =
          (subst (λ o. Matches k o (lookup k r.cap_sets)) e (v.matches k)) in
        ap (λ o. node.is_alive && meets q o) (ap (λ i. lookup i r.cap_sets) m.0 ∙ m.1)
        ∙ meets-satisfies q node))
