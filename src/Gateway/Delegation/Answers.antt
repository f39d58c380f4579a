-- ===== src/Gateway/Delegation/Answers.antt =====
-- packages/gateway/src/delegation-manager.ts: how an answer is settled, by a frame, a timer or a
-- cancellation, and what follows once it is.
use templar.Prelude.{
  ℕ, ◌+◌, true, not, ◌||◌, Option, none, some, List, [], ◌∷◌, ◌++◌, map, String, if◌then◌else◌,
  str_eq, ltb, ◌==◌, keep,
}
use templar.Prelude.Maps.{Map, lookup, erase, map_filter, keys}
use templar.Prelude.Text.{◌<>◌}
use templar.Gateway.Breaker.{record_failure, record_success}
use templar.Gateway.Registry.{NodeRegistry}
use templar.Gateway.Delegation.{
  DelegationManager, DelegationStatus, refused, completed, failed, timeout, ActiveDelegation,
  Answer, awaiting, settled, Run, accepted, completed_by, failed_on, cancelled, sends_cancel,
  returned, Step, breaker_of, put_breaker, cleanup,
}
use templar.Gateway.Delegation.Steps.{next_fallback}

abbrev pub settle_run : ℕ → Option DelegationStatus → Run → Run
settle_run ticket value run =
    if run.ticket == ticket
    then elim run.answer [ awaiting ↦ record run { answer = settled value } | settled v ↦ run ]
    else run

abbrev pub abort_run : ℕ → Run → Run
abort_run ticket run = if run.ticket == ticket then record run { aborted = true } else run

unfoldable pub find_run : ℕ → List Run → Option Run
find_run ticket [] = none
find_run ticket (run ∷ runs) = if run.ticket == ticket then some run else find_run ticket runs

abbrev pub drop_resolver : DelegationManager → Option Run → Map ℕ
drop_resolver m none = m.pending_node_resolvers
drop_resolver m (some run) = elim run.answer [
  | awaiting ↦ erase run.request.delegation_id m.pending_node_resolvers
  | settled v ↦ m.pending_node_resolvers
]

-- `settle`: the first value counts. With `none` it is the timer of a node.
unfoldable pub settle : DelegationManager → ℕ → Option DelegationStatus → DelegationManager
settle m ticket value = record m {
  runs = map (settle_run ticket value) m.runs;
  pending_node_resolvers = drop_resolver m (find_run ticket m.runs);
}

-- `abortController.abort()`, which is also the timer of the whole delegation.
unfoldable pub abort : DelegationManager → ℕ → DelegationManager
abort m ticket =
    let m' = settle m ticket none in record m' { runs = map (abort_run ticket) m'.runs }

-- A resolver that the abort has left.
abbrev pub resolve_pending : DelegationManager → String → Option ℕ → DelegationManager
resolve_pending m id none = m
resolve_pending m id (some ticket) =
    let m' = settle m ticket none in
    record m' { pending_node_resolvers = erase id m'.pending_node_resolvers }

unfoldable pub cancel_found : DelegationManager → String → String → Option ActiveDelegation → Step
cancel_found m id reason none = (m, [])
cancel_found m id reason (some active) =
    let m' = abort m active.abort_controller in
    (
      cleanup (resolve_pending m' id (lookup id m'.pending_node_resolvers)) id active.from_node_id,
      sends_cancel active.current_node_id id reason ∷ cancelled id reason ∷ [],
    )

unfoldable pub cancel : DelegationManager → String → String → Step
cancel m id reason = cancel_found m id reason (lookup id m.delegations)

unfoldable pub cancel_all : DelegationManager → List String → String → Step
cancel_all m [] reason = (m, [])
cancel_all m (id ∷ ids) reason =
    let (m', out) = cancel m id reason in
    let rest = cancel_all m' ids reason in (rest.0, out ++ rest.1)

unfoldable pub sweep : DelegationManager → ℕ → Step
sweep m now =
    cancel_all m
      (keys (
        map_filter (λ id active. ltb (active.created_at + m.config.max_delegation_ttl_ms) now)
          m.delegations))
      "ttl_expired"

unfoldable pub cleanup_node : DelegationManager → String → Step
cleanup_node m node_id =
    cancel_all m
      (keys (
        map_filter
          (λ id active. str_eq active.from_node_id node_id || str_eq active.current_node_id node_id)
          m.delegations))
      ("node " <> node_id <> " disconnected")

abbrev pub resolve_frame :
    DelegationManager → String → DelegationStatus → Option ℕ → DelegationManager
resolve_frame m id status none = m
resolve_frame m id status (some ticket) =
    let m' = settle m ticket (some status) in
    record m' { pending_node_resolvers = erase id m'.pending_node_resolvers }

-- A frame "delegation.result", and a frame "delegation.accept".
unfoldable pub handle_result : DelegationManager → String → DelegationStatus → DelegationManager
handle_result m id status = elim (lookup id m.delegations) [
  | none ↦ m
  | some active ↦ resolve_frame m id status (lookup id m.pending_node_resolvers)
]

pub handle_accept : DelegationManager → String → String → Step
handle_accept m id node_id = elim (lookup id m.delegations) [
  | none ↦ (m, [])
  | some active ↦ (m, accepted id node_id ∷ [])
]

abbrev pub reason_of : Option DelegationStatus → String
reason_of none = "timeout"
reason_of (some refused) = "refused"
reason_of (some completed) = "completed"
reason_of (some failed) = "failed"
reason_of (some timeout) = "timeout"

-- The rest of `tryNode` and `delegate` for a node that has failed.
unfoldable pub resume_failed :
    NodeRegistry → DelegationManager → Run → Option DelegationStatus → ℕ → Step
resume_failed registry m run value now =
    let rest =
      next_fallback registry run.untried
        (put_breaker m run.node_id (record_failure (breaker_of m run.node_id) now))
        (record run { failed_nodes = run.failed_nodes ++ run.node_id ∷ [] }) now in
    (rest.0, failed_on run.request.delegation_id run.node_id (reason_of value) ∷ rest.1)

unfoldable pub resume_run : NodeRegistry → DelegationManager → Run → Answer → ℕ → Step
resume_run registry m run awaiting now = (record m { runs = run ∷ m.runs }, [])
resume_run registry m run (settled (some completed)) now =
    let id = run.request.delegation_id in
    (
      cleanup (put_breaker m run.node_id (record_success (breaker_of m run.node_id))) id
          run.request.from_node_id,
      completed_by id run.node_id ∷ returned id completed ∷ [],
    )
resume_run registry m run (settled value) now = resume_failed registry m run value now

unfoldable pub resume_found : NodeRegistry → DelegationManager → ℕ → Option Run → ℕ → Step
resume_found registry m ticket none now = (m, [])
resume_found registry m ticket (some run) now =
    resume_run registry (record m { runs = keep (λ r. not (r.ticket == ticket)) m.runs }) run
      run.answer now

-- The step after the `await` of the run with a ticket.
unfoldable pub resume : NodeRegistry → DelegationManager → ℕ → ℕ → Step
resume registry m ticket now = resume_found registry m ticket (find_run ticket m.runs) now

unfoldable pub abort_all : DelegationManager → Map ActiveDelegation → DelegationManager
abort_all m [] = m
abort_all m ((id, active) ∷ rest) =
    let m' = abort m active.abort_controller in
    abort_all (resolve_pending m' id (lookup id m'.pending_node_resolvers)) rest

unfoldable pub dispose : DelegationManager → DelegationManager
dispose m = record (abort_all m m.delegations) { delegations = []; node_active_counts = [] }
