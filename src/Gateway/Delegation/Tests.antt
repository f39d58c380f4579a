-- ===== src/Gateway/Delegation/Tests.antt =====
-- Runs of packages/gateway/src/delegation-manager.ts.
use templar.Prelude.{◌≤◌, true, List, ◌≡◌, ◌-◌, refl, false, [], ◌∷◌, String}
use templar.Prelude.Maps.{lookup}
use templar.Gateway.Breaker.{CircuitBreaker, CircuitBreakerConfig, is_open}
use templar.Gateway.Registry.{empty}
use templar.Gateway.Delegation.{
  DelegationManagerConfig, DelegationRequest, ActiveDelegation, awaiting, Run, DelegationManager,
  init, count_of, blocks,
}
use templar.Gateway.Delegation.Answers.{find_run, cancel, resume}
use templar.Gateway.Delegation.Gates.{blocks-is_open}
use templar.Gateway.Delegation.History.{Call, stores, delegates, aborts, resumes, cancels, run}
use templar.Gateway.Delegation.Bounded.{IsBounded, delegation_run-IsBounded}
use templar.Gateway.Delegation.Cancel.{cancel-count}
use templar.Gateway.Delegation.Turns.{turns, requested, delegation_turns}

abbrev three_failures : CircuitBreakerConfig
three_failures = record { threshold = 3; cooldown_ms = 100 }

abbrev config : DelegationManagerConfig
config = record {
  max_active_delegations = 10;
  max_per_node_delegations = 2;
  max_delegation_ttl_ms = 9000;
  min_node_timeout_ms = 30;
  circuit_breaker = three_failures;
}

-- After its cooldown.
abbrev tripped : CircuitBreaker
tripped = record { config = three_failures; failures = 3; last_failure_at = 50; probing = false }

blocks-is_open_example :
    ((blocks tripped 60).1 ≡ is_open tripped 60) × ((blocks tripped 60).0 ≡ tripped)
blocks-is_open_example = blocks-is_open tripped 60

abbrev review : String → DelegationRequest
review id = record {
  delegation_id = id;
  from_node_id = "a";
  to_node_id = "b";
  intent = "review";
  fallback_node_ids = "c" ∷ [];
  timeout_ms = 500;
}

abbrev active : ActiveDelegation
active = record {
  delegation_id = "d1";
  from_node_id = "a";
  to_node_id = "b";
  intent = "review";
  created_at = 5;
  abort_controller = 0;
  current_node_id = "b";
}

abbrev waiting : Run
waiting = record {
  ticket = 0;
  request = review "d1";
  aborted = false;
  node_id = "b";
  failed_nodes = [];
  untried = "c" ∷ [];
  answer = awaiting;
}

-- Two delegations of the node "a".
abbrev two_active : DelegationManager
two_active = record (init config false) {
  delegations =
      ("d1", active) ∷ ("d2", record active { delegation_id = "d2"; abort_controller = 1 }) ∷ [];
  node_active_counts = ("a", 2) ∷ [];
  pending_node_resolvers = ("d1", 0) ∷ ("d2", 1) ∷ [];
  runs = waiting ∷ record waiting { ticket = 1; request = review "d2" } ∷ [];
  next_ticket = 2;
}

cancel-count_example :
    count_of (resume empty (cancel two_active "d1" "stop").0 0 9).0 "a"
    ≡ count_of two_active "a" - 2
unfolding lookup find_run
cancel-count_example = cancel-count empty two_active "stop" active waiting 9 refl refl refl refl

abbrev calls : List Call
calls =
    delegates empty (review "d1") 1
    ∷ delegates empty (review "d2") 2
    ∷ cancels "d2" "stop"
    ∷ aborts 0
    ∷ resumes empty 0 9
    ∷ []

delegation_run-IsBounded_example : IsBounded config (run (init config false) calls)
delegation_run-IsBounded_example = delegation_run-IsBounded config calls

-- With a store, whose answers come in the other order.
abbrev stored_calls : List Call
stored_calls =
    delegates empty (review "d1") 1
    ∷ delegates empty (review "d2") 2
    ∷ stores empty 1 3
    ∷ stores empty 0 4
    ∷ aborts 0
    ∷ resumes empty 0 9
    ∷ []

delegation_turns_example : turns (init config true) stored_calls ≤ requested stored_calls
delegation_turns_example = delegation_turns config true stored_calls
