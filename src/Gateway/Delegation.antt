-- ===== src/Gateway/Delegation.antt =====
-- packages/gateway/src/delegation-manager.ts. A running call of `delegate` is a Run, which waits for the
-- answer of a node; its abort controller is a number, the ticket, and a settled answer is taken up by a
-- later step, as the source continues after `await`. With the optional store, a call that waits for
-- `storeCreate` is a Creating, and goes on in a later step too; what the store answers, and the updates of
-- its records, change nothing of the manager. What the manager emits, sends and returns is a result of
-- each step. A node that is not asked is passed over in the same step. Clocks do not run backwards.
pub mod Steps
pub mod Answers
pub mod Gates
pub mod Cancel
pub mod Progress
pub mod History
pub mod Limits
pub mod Shrinks
pub mod Bounded
pub mod Left
pub mod Turns
mod Tests
use Prim.Native.Nat.{min, max}
use templar.Prelude.{
  ℕ, ◌+◌, ◌-◌, ◌/◌, Bool, true, false, not, Option, none, some, List, [], ◌∷◌, ◌++◌, map, String,
  if◌then◌else◌, str_eq, ltb, leb, ◌==◌, length, keep,
}
use templar.Prelude.Maps.{Map, lookup, insert, erase, size}
use templar.Gateway.Breaker.{
  CircuitBreaker, CircuitBreakerConfig, is_open, allows_probe, record_failure, record_success,
}
use templar.Gateway.Breaker as Breaker
use templar.Gateway.Registry.{NodeRegistry, RegisteredNode}

pub record DelegationManagerConfig : Type 0 where
  pub max_active_delegations : ℕ
  pub max_per_node_delegations : ℕ
  pub max_delegation_ttl_ms : ℕ
  pub min_node_timeout_ms : ℕ
  pub circuit_breaker : CircuitBreakerConfig

pub record DelegationRequest : Type 0 where
  pub delegation_id : String
  pub from_node_id : String
  pub to_node_id : String
  pub intent : String
  pub fallback_node_ids : List String
  pub timeout_ms : ℕ

pub data DelegationStatus : Type 0 where
  refused completed failed timeout : DelegationStatus

pub record ActiveDelegation : Type 0 where
  pub delegation_id : String
  pub from_node_id : String
  pub to_node_id : String
  pub intent : String
  pub created_at : ℕ
  pub abort_controller : ℕ
  pub current_node_id : String

-- The promise that `tryNode` awaits.
pub data Answer : Type 0 where
  awaiting : Answer
  settled : Option DelegationStatus → Answer

pub record Run : Type 0 where
  pub ticket : ℕ
  pub request : DelegationRequest
  pub aborted : Bool
  pub node_id : String
  pub failed_nodes : List String
  pub untried : List String
  pub answer : Answer

-- A call that has passed the checks, with the count of its node that it read.
pub record Creating : Type 0 where
  pub request : DelegationRequest
  pub from_count : ℕ

-- `store` is `none` without a store, and else has the calls that wait for it.
pub record DelegationManager : Type 0 where
  pub config : DelegationManagerConfig
  pub delegations : Map ActiveDelegation
  pub circuit_breakers : Map CircuitBreaker
  pub node_active_counts : Map ℕ
  pub pending_node_resolvers : Map ℕ
  pub runs : List Run
  pub next_ticket : ℕ
  pub store : Option (List Creating)

pub data Output : Type 0 where
  creates : (id : String) → Output
  started : (id from_node to_node : String) → Output
  accepted completed_by : (id node_id : String) → Output
  failed_on : (id node_id reason : String) → Output
  exhausted : (id : String) → List String → Output
  cancelled : (id reason : String) → Output
  sends_request : (node_id id : String) (budget : ℕ) → Output
  sends_cancel : (node_id id reason : String) → Output
  returned : (id : String) → DelegationStatus → Output

abbrev pub Step : Type 0
Step = DelegationManager × List Output

abbrev pub init : DelegationManagerConfig → Bool → DelegationManager
init config has_store = record {
  config = config;
  delegations = [];
  circuit_breakers = [];
  node_active_counts = [];
  pending_node_resolvers = [];
  runs = [];
  next_ticket = 0;
  store = if has_store then some [] else none;
}

abbrev pub or_zero : Option ℕ → ℕ
or_zero none = 0
or_zero (some n) = n

abbrev pub count_of : DelegationManager → String → ℕ
count_of m node_id = or_zero (lookup node_id m.node_active_counts)

abbrev pub or_new : CircuitBreakerConfig → Option CircuitBreaker → CircuitBreaker
or_new config none = Breaker.init config
or_new config (some b) = b

-- `getCircuitBreaker`; the caller stores the breaker.
abbrev pub breaker_of : DelegationManager → String → CircuitBreaker
breaker_of m node_id = or_new m.config.circuit_breaker (lookup node_id m.circuit_breakers)

abbrev pub put_breaker : DelegationManager → String → CircuitBreaker → DelegationManager
put_breaker m node_id b = record m { circuit_breakers = insert node_id b m.circuit_breakers }

-- `cb.isOpen && !cb.allowsProbe()`
pub blocks : CircuitBreaker → ℕ → CircuitBreaker × Bool
blocks b now =
    if is_open b now then ((allows_probe b now).0, not (allows_probe b now).1) else (b, false)

pub cleanup : DelegationManager → String → String → DelegationManager
cleanup m id from_node_id = record m {
  delegations = erase id m.delegations;
  pending_node_resolvers = erase id m.pending_node_resolvers;
  node_active_counts =
      if leb (count_of m from_node_id) 1
      then erase from_node_id m.node_active_counts
      else insert from_node_id (count_of m from_node_id - 1) m.node_active_counts;
}

abbrev pub alive : Option RegisteredNode → Bool
alive none = false
alive (some node) = node.is_alive

-- `now - (active?.createdAt ?? now)`
abbrev pub elapsed : Option ActiveDelegation → ℕ → ℕ
elapsed none now = 0
elapsed (some active) now = now - active.created_at

-- The time of a node, for a remaining time of at least the minimum.
pub node_budget : DelegationManagerConfig → DelegationRequest → ℕ → ℕ
node_budget config request remaining =
    let others =
      if length request.fallback_node_ids == 0 then 1 else length request.fallback_node_ids in
    min remaining (max config.min_node_timeout_ms (remaining / (others + 1)))

abbrev pub at_node :
    Map ActiveDelegation → String → String → Option ActiveDelegation → Map ActiveDelegation
at_node delegations id node_id none = delegations
at_node delegations id node_id (some active) =
    insert id (record active { current_node_id = node_id }) delegations

-- `tryNode` up to its `await`, for a breaker that the caller has asked: whether it waits.
pub ask_node :
    NodeRegistry → DelegationManager → Run → String → ℕ → DelegationManager × List Output × Bool
ask_node registry m run node_id now =
    let id = run.request.delegation_id in
    let active = lookup id m.delegations in
    let spent = elapsed active now in
    let budget = node_budget m.config run.request (run.request.timeout_ms - spent) in
    if run.aborted
    then (m, [], false)
    else if not (alive (lookup node_id registry.nodes))
    then (
      put_breaker m node_id (record_failure (breaker_of m node_id) now),
      failed_on id node_id "node_unavailable" ∷ [],
      false,
    )
    else if ltb run.request.timeout_ms (spent + m.config.min_node_timeout_ms)
    then (m, [], false)
    else (
      record m {
        delegations = at_node m.delegations id node_id active;
        pending_node_resolvers = insert id run.ticket m.pending_node_resolvers;
      },
      sends_request node_id id budget ∷ [],
      true,
    )

pub try_node :
    NodeRegistry → DelegationManager → Run → String → ℕ → DelegationManager × List Output × Bool
try_node registry m run node_id now =
    let (b, blocked) = blocks (breaker_of m node_id) now in
    let m' = put_breaker m node_id b in
    if blocked then (m', [], false) else ask_node registry m' run node_id now

-- The loop's turn for a fallback node, which asks the breaker before `tryNode` does.
pub try_fallback :
    NodeRegistry → DelegationManager → Run → String → ℕ → DelegationManager × List Output × Bool
try_fallback registry m run node_id now =
    let (b, blocked) = blocks (breaker_of m node_id) now in
    let m' = put_breaker m node_id b in
    if blocked then (m', [], false) else try_node registry m' run node_id now
