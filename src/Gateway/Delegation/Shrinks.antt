-- ===== src/Gateway/Delegation/Shrinks.antt =====
-- packages/gateway/src/delegation-manager.ts: every call but `delegate`, and what `delegate` does once it
-- has admitted a request, leaves no more delegations and no higher counters.
use templar.Prelude.{
  ℕ, not, Option, none, some, List, [], ◌∷◌, ◌++◌, String, ◌==◌, keep, refl, arith,
}
use templar.Prelude.Maps.{Map, lookup}
use templar.Gateway.Breaker.{CircuitBreaker, record_failure, record_success}
use templar.Gateway.Registry.{NodeRegistry}
use templar.Gateway.Delegation.{
  DelegationManager, DelegationStatus, refused, completed, failed, timeout, ActiveDelegation, Run,
  Answer, awaiting, settled, breaker_of, put_breaker, try_node,
}
use templar.Gateway.Delegation.Steps.{try_primary}
use templar.Gateway.Delegation.Answers.{
  settle, abort, resolve_pending, cancel_found, cancel, cancel_all, resolve_frame, handle_result,
  resume_failed, resume_run, resume_found, abort_all, dispose,
}
use templar.Gateway.Delegation.Limits.{
  IsWithin, IsWithin-refl, IsWithin-trans, cleanup-IsWithin, try_node-IsWithin,
  next_fallback-IsWithin,
}

IsWithin-same :
    (m : DelegationManager) (breakers : Map CircuitBreaker) (resolvers : Map ℕ) (calls : List Run)
    → IsWithin m
        (record m { circuit_breakers = breakers; pending_node_resolvers = resolvers; runs = calls })
IsWithin-same m breakers resolvers calls = record {
  config = refl;
  active = omega arith;
  counts = λ n. omega arith;
}

pub settle-IsWithin :
    (m : DelegationManager) (ticket : ℕ) (value : Option DelegationStatus)
    → IsWithin m (settle m ticket value)
unfolding settle
settle-IsWithin m ticket value = IsWithin-same m _ _ _

pub abort-IsWithin : (m : DelegationManager) (ticket : ℕ) → IsWithin m (abort m ticket)
unfolding abort settle
abort-IsWithin m ticket = IsWithin-same m _ _ _

resolve_pending-IsWithin :
    (m : DelegationManager) (id : String) (found : Option ℕ)
    → IsWithin m (resolve_pending m id found)
unfolding settle
resolve_pending-IsWithin m id none = IsWithin-refl m
resolve_pending-IsWithin m id (some ticket) = IsWithin-same m _ _ _

pub cancel_found-IsWithin :
    (m : DelegationManager) (id reason : String) (found : Option ActiveDelegation)
    → IsWithin m (cancel_found m id reason found).0
unfolding cancel_found
cancel_found-IsWithin m id reason none = IsWithin-refl m
cancel_found-IsWithin m id reason (some active) =
    let m' = abort m active.abort_controller in
    let found = lookup id m'.pending_node_resolvers in
    IsWithin-trans (abort-IsWithin m active.abort_controller) (
      IsWithin-trans (resolve_pending-IsWithin m' id found)
        (cleanup-IsWithin (resolve_pending m' id found) id active.from_node_id))

pub cancel_all-IsWithin :
    (m : DelegationManager) (ids : List String) (reason : String)
    → IsWithin m (cancel_all m ids reason).0
unfolding cancel_all cancel
cancel_all-IsWithin m [] reason = IsWithin-refl m
cancel_all-IsWithin m (id ∷ ids) reason =
    IsWithin-trans (cancel_found-IsWithin m id reason (lookup id m.delegations))
      (cancel_all-IsWithin (cancel m id reason).0 ids reason)

resolve_frame-IsWithin :
    (m : DelegationManager) (id : String) (status : DelegationStatus) (found : Option ℕ)
    → IsWithin m (resolve_frame m id status found)
unfolding settle
resolve_frame-IsWithin m id status none = IsWithin-refl m
resolve_frame-IsWithin m id status (some ticket) = IsWithin-same m _ _ _

pub handle_result-IsWithin :
    (m : DelegationManager) (id : String) (status : DelegationStatus)
    → IsWithin m (handle_result m id status)
unfolding handle_result
handle_result-IsWithin m id status =
    let framed = resolve_frame-IsWithin m id status (lookup id m.pending_node_resolvers) in
    record {
      config = ground (framed.config, arith);
      active = ground (framed.active, arith);
      counts = λ n. ground (framed.counts n, arith);
    }

resume_failed-IsWithin :
    (registry : NodeRegistry) (m : DelegationManager) (call : Run) (value : Option DelegationStatus)
    (now : ℕ)
    → IsWithin m (resume_failed registry m call value now).0
unfolding resume_failed
resume_failed-IsWithin registry m call value now =
    let m' = put_breaker m call.node_id (record_failure (breaker_of m call.node_id) now) in
    let next : IsWithin m' (resume_failed registry m call value now).0 =
      next_fallback-IsWithin registry call.untried m'
        (record call { failed_nodes = call.failed_nodes ++ call.node_id ∷ [] }) now in
    record { config = next.config; active = next.active; counts = next.counts }

pub resume_run-IsWithin :
    (registry : NodeRegistry) (m : DelegationManager) (call : Run) (answer : Answer) (now : ℕ)
    → IsWithin m (resume_run registry m call answer now).0
unfolding resume_run
resume_run-IsWithin registry m call awaiting now = IsWithin-same m _ _ _
resume_run-IsWithin registry m call (settled (some completed)) now =
    let m' = put_breaker m call.node_id (record_success (breaker_of m call.node_id)) in
    let clean = cleanup-IsWithin m' call.request.delegation_id call.request.from_node_id in
    record { config = clean.config; active = clean.active; counts = clean.counts }
resume_run-IsWithin registry m call (settled none) now =
    resume_failed-IsWithin registry m call none now
resume_run-IsWithin registry m call (settled (some refused)) now =
    resume_failed-IsWithin registry m call (some refused) now
resume_run-IsWithin registry m call (settled (some failed)) now =
    resume_failed-IsWithin registry m call (some failed) now
resume_run-IsWithin registry m call (settled (some timeout)) now =
    resume_failed-IsWithin registry m call (some timeout) now

pub resume_found-IsWithin :
    (registry : NodeRegistry) (m : DelegationManager) (ticket : ℕ) (found : Option Run) (now : ℕ)
    → IsWithin m (resume_found registry m ticket found now).0
unfolding resume_found
resume_found-IsWithin registry m ticket none now = IsWithin-refl m
resume_found-IsWithin registry m ticket (some call) now =
    let m' = record m { runs = keep (λ r. not (r.ticket == ticket)) m.runs } in
    let went = resume_run-IsWithin registry m' call call.answer now in
    record { config = went.config; active = went.active; counts = went.counts }

abort_all-IsWithin :
    (m : DelegationManager) (entries : Map ActiveDelegation) → IsWithin m (abort_all m entries)
unfolding abort_all
abort_all-IsWithin m [] = IsWithin-refl m
abort_all-IsWithin m ((id, active) ∷ rest) =
    let m' = abort m active.abort_controller in
    let found = lookup id m'.pending_node_resolvers in
    IsWithin-trans (abort-IsWithin m active.abort_controller) (
      IsWithin-trans (resolve_pending-IsWithin m' id found)
        (abort_all-IsWithin (resolve_pending m' id found) rest))

pub dispose-IsWithin : (m : DelegationManager) → IsWithin m (dispose m)
unfolding dispose lookup
dispose-IsWithin m =
    let ended = abort_all-IsWithin m m.delegations in
    record { config = ended.config; active = omega arith; counts = λ n. omega arith }

pub try_primary-IsWithin :
    (registry : NodeRegistry) (m : DelegationManager) (call : Run) (now : ℕ)
    → IsWithin m (try_primary registry m call now).0
unfolding try_primary
try_primary-IsWithin registry m call now =
    let tried = try_node-IsWithin registry m call call.node_id now in
    let rest = IsWithin-trans tried (
      next_fallback-IsWithin registry call.untried (try_node registry m call call.node_id now).0
        (record call { failed_nodes = call.node_id ∷ [] }) now) in
    record {
      config = ground (tried.config, rest.config, arith);
      active = ground (tried.active, rest.active, arith);
      counts = λ n. ground (tried.counts n, rest.counts n, arith);
    }
