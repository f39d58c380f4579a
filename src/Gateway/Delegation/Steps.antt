-- ===== src/Gateway/Delegation/Steps.antt =====
-- packages/gateway/src/delegation-manager.ts: `delegate` up to its first `await`, with the loop over the
-- fallback nodes.
use templar.Prelude.{
  ℕ, ◌+◌, ◌-◌, ◌==◌, true, false, Option, none, some, List, [], ◌∷◌, ◌++◌, String, if◌then◌else◌,
  leb,
}
use templar.Prelude.Maps.{insert, size}
use templar.Gateway.Registry.{NodeRegistry}
use templar.Gateway.Delegation.{
  Creating, creates, DelegationManager, DelegationRequest, failed, timeout, awaiting, Run, started,
  failed_on, exhausted, returned, Step, count_of, cleanup, try_node, try_fallback,
}

-- The end of `delegate` when no node has answered.
unfoldable pub all_failed : DelegationManager → Run → Step
all_failed m run =
    let id = run.request.delegation_id in
    let m' = cleanup m id run.request.from_node_id in
    if run.aborted
    then (m', failed_on id run.request.to_node_id "timeout" ∷ returned id timeout ∷ [])
    else (m', exhausted id run.failed_nodes ∷ returned id failed ∷ [])

abbrev pub waits : DelegationManager → Run → String → List String → DelegationManager
waits m run node_id untried = record m {
  runs = record run { node_id = node_id; untried = untried; answer = awaiting } ∷ m.runs;
}

-- The loop over the fallback nodes; `run` is not among the runs of the manager.
unfoldable pub next_fallback : NodeRegistry → List String → DelegationManager → Run → ℕ → Step
next_fallback registry [] m run now = all_failed m run
next_fallback registry (node_id ∷ untried) m run now =
    if run.aborted then all_failed m run else elim (try_fallback registry m run node_id now).2 [
      | true ↦
          let (m', out, waiting) = try_fallback registry m run node_id now in
          (waits m' run node_id untried, out)
      | false ↦
          let (m', out, waiting) = try_fallback registry m run node_id now in
          let rest =
            next_fallback registry untried m'
              (record run { failed_nodes = run.failed_nodes ++ node_id ∷ [] }) now in
          (rest.0, out ++ rest.1)
    ]

abbrev pub new_run : DelegationManager → DelegationRequest → Run
new_run m request = record {
  ticket = m.next_ticket;
  request = request;
  aborted = false;
  node_id = request.to_node_id;
  failed_nodes = [];
  untried = request.fallback_node_ids;
  answer = awaiting;
}

-- The manager with a new delegation, and the count that was read of its node.
unfoldable pub admit : DelegationManager → DelegationRequest → ℕ → ℕ → DelegationManager
admit m request from_count now = record m {
  delegations =
      insert request.delegation_id
        (record {
          delegation_id = request.delegation_id;
          from_node_id = request.from_node_id;
          to_node_id = request.to_node_id;
          intent = request.intent;
          created_at = now;
          abort_controller = m.next_ticket;
          current_node_id = request.to_node_id;
        })
        m.delegations;
  node_active_counts = insert request.from_node_id (from_count + 1) m.node_active_counts;
  next_ticket = m.next_ticket + 1;
}

-- The first node, and the fallbacks if it does not wait for an answer.
unfoldable pub try_primary : NodeRegistry → DelegationManager → Run → ℕ → Step
try_primary registry m run now = elim (try_node registry m run run.node_id now).2 [
  | true ↦
      let (m', out, waiting) = try_node registry m run run.node_id now in
      (waits m' run run.node_id run.untried, out)
  | false ↦
      let (m', out, waiting) = try_node registry m run run.node_id now in
      let rest =
        next_fallback registry run.untried m' (record run { failed_nodes = run.node_id ∷ [] })
          now in
      (rest.0, out ++ rest.1)
]

-- The part of `delegate` from the abort controller on.
unfoldable pub begin : NodeRegistry → DelegationManager → DelegationRequest → ℕ → ℕ → Step
begin registry m request from_count now =
    let rest = try_primary registry (admit m request from_count now) (new_run m request) now in
    (rest.0, started request.delegation_id request.from_node_id request.to_node_id ∷ rest.1)

-- The part of `delegate` after the checks: with a store it waits for `storeCreate`.
unfoldable pub create_or_begin :
    NodeRegistry → DelegationManager → DelegationRequest → ℕ → Option (List Creating) → Step
create_or_begin registry m request now none =
    begin registry m request (count_of m request.from_node_id) now
create_or_begin registry m request now (some calls) =
    let call : Creating = record {
      request = request;
      from_count = count_of m request.from_node_id;
    } in
    (record m { store = some (calls ++ call ∷ []) }, creates request.delegation_id ∷ [])

unfoldable pub delegate : NodeRegistry → DelegationManager → DelegationRequest → ℕ → Step
delegate registry m request now =
    let id = request.delegation_id in
    if leb m.config.max_active_delegations (size m.delegations)
    then (m, returned id failed ∷ [])
    else if leb m.config.max_per_node_delegations (count_of m request.from_node_id)
    then (m, returned id failed ∷ [])
    else create_or_begin registry m request now m.store

abbrev pub skip_call :
    Creating → Option (Creating × List Creating) → Option (Creating × List Creating)
skip_call c none = none
skip_call c (some (found, rest)) = some (found, c ∷ rest)

-- The call at an index, and the other calls.
abbrev pub take_call : ℕ → List Creating → Option (Creating × List Creating)
take_call i [] = none
take_call i (c ∷ calls) =
    let rest = skip_call c (take_call (i - 1) calls) in if i == 0 then some (c, calls) else rest

abbrev pub begin_taken :
    NodeRegistry → DelegationManager → ℕ → Option (Creating × List Creating) → Step
begin_taken registry m now none = (m, [])
begin_taken registry m now (some (c, rest)) =
    begin registry (record m { store = some rest }) c.request c.from_count now

-- A call of `delegate` goes on after the store has answered or the time for that has passed.
unfoldable pub after_create :
    NodeRegistry → DelegationManager → ℕ → ℕ → Option (List Creating) → Step
after_create registry m i now none = (m, [])
after_create registry m i now (some calls) = begin_taken registry m now (take_call i calls)
