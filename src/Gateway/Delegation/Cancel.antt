-- ===== src/Gateway/Delegation/Cancel.antt =====
-- packages/gateway/src/delegation-manager.ts: how the delegations of a node are counted when one of them
-- is cancelled.
use templar.Prelude.{
  ℕ, ◌-◌, true, not, Option, none, some, List, [], ◌∷◌, ◌++◌, map, String, ◌==◌, keep, ◌≡◌, refl,
  sym, subst, ap, ◌∙◌, arith,
}
use templar.Prelude.Maps.{lookup, lookup-erase_self, lookup-insert_self}
use templar.Gateway.Breaker.{record_failure}
use templar.Gateway.Registry.{NodeRegistry}
use templar.Gateway.Delegation.{
  DelegationManager, ActiveDelegation, Run, awaiting, settled, Step, count_of, breaker_of,
  put_breaker, cleanup,
}
use templar.Gateway.Delegation.Steps.{all_failed, next_fallback}
use templar.Gateway.Delegation.Answers.{
  settle_run, abort_run, find_run, settle, abort, resolve_pending, cancel_found, cancel,
  resume_failed, resume_run, resume_found, resume,
}

count-cleanup :
    (m : DelegationManager) (id from : String)
    → count_of (cleanup m id from) from ≡ count_of m from - 1
unfolding cleanup
count-cleanup m id from = ground (
  arith,
  lookup-erase_self from m.node_active_counts,
  lookup-insert_self from (count_of m from - 1) m.node_active_counts,
)

aborted-all_failed :
    (registry : NodeRegistry) (untried : List String) (m : DelegationManager) (run : Run) (now : ℕ)
    → run.aborted ≡ true
    → next_fallback registry untried m run now ≡ all_failed m run
unfolding next_fallback
aborted-all_failed registry [] m run now h = refl
aborted-all_failed registry (node_id ∷ untried) m run now h = rw h

all_failed-count :
    (m : DelegationManager) (run : Run)
    → count_of (all_failed m run).0 run.request.from_node_id
      ≡ count_of m run.request.from_node_id - 1
unfolding all_failed
all_failed-count m run =
    ground (arith, count-cleanup m run.request.delegation_id run.request.from_node_id)

-- The end of an aborted run, after the failure of its node.
aborted-count :
    (registry : NodeRegistry) (m : DelegationManager) (run : Run) (now : ℕ)
    → run.aborted ≡ true
    → count_of (resume_failed registry m run none now).0 run.request.from_node_id
      ≡ count_of m run.request.from_node_id - 1
unfolding resume_failed
aborted-count registry m run now h =
    let m' = put_breaker m run.node_id (record_failure (breaker_of m run.node_id) now) in
    let run' : Run = record run { failed_nodes = run.failed_nodes ++ run.node_id ∷ [] } in
    ap (λ (s : Step). count_of s.0 run.request.from_node_id)
      (aborted-all_failed registry run.untried m' run' now h)
    ∙ all_failed-count m' run'

-- A run that has been aborted while it waited.
abbrev gone : Run → Run
gone run = record run { answer = settled none; aborted = true }

find-aborted :
    (ticket : ℕ) (runs : List Run) (run : Run)
    → find_run ticket runs ≡ some run
    → run.answer ≡ awaiting
    → find_run ticket (map (abort_run ticket) (map (settle_run ticket none) runs)) ≡ some (gone run)
unfolding find_run
find-aborted ticket [] run h waits = ground (arith, h)
find-aborted ticket (r ∷ runs) run h waits =
    let rest = find-aborted ticket runs run in ground (arith, h, waits, rest)

no_resolver :
    (m : DelegationManager) (ticket : ℕ) (run : Run)
    → find_run ticket m.runs ≡ some run
    → run.answer ≡ awaiting
    → lookup run.request.delegation_id (abort m ticket).pending_node_resolvers ≡ none
unfolding abort settle
no_resolver m ticket run at waits =
    ground (arith, at, waits, lookup-erase_self run.request.delegation_id m.pending_node_resolvers)

found-cancelled :
    (m : DelegationManager) (reason : String) (active : ActiveDelegation) (run : Run)
    → find_run active.abort_controller m.runs ≡ some run
    → run.answer ≡ awaiting
    → (cancel_found m run.request.delegation_id reason (some active)).0
      ≡ cleanup (abort m active.abort_controller) run.request.delegation_id active.from_node_id
unfolding cancel_found
found-cancelled m reason active run at waits =
    let id = run.request.delegation_id in
    let m' = abort m active.abort_controller in
    ap (λ (r : Option ℕ). cleanup (resolve_pending m' id r) id active.from_node_id)
      (no_resolver m active.abort_controller run at waits)

cancel-cleanup :
    (m : DelegationManager) (reason : String) (active : ActiveDelegation) (run : Run)
    → lookup run.request.delegation_id m.delegations ≡ some active
    → find_run active.abort_controller m.runs ≡ some run
    → run.answer ≡ awaiting
    → (cancel m run.request.delegation_id reason).0
      ≡ cleanup (abort m active.abort_controller) run.request.delegation_id active.from_node_id
unfolding cancel
cancel-cleanup m reason active run found at waits =
    ap (λ (r : Option ActiveDelegation). (cancel_found m run.request.delegation_id reason r).0)
      found
    ∙ found-cancelled m reason active run at waits

cleanup-find :
    (m : DelegationManager) (active : ActiveDelegation) (run : Run) (id : String)
    → find_run active.abort_controller m.runs ≡ some run
    → run.answer ≡ awaiting
    → find_run active.abort_controller
        (cleanup (abort m active.abort_controller) id active.from_node_id).runs
      ≡ some (gone run)
unfolding cleanup abort settle
cleanup-find m active run id at waits = find-aborted active.abort_controller m.runs run at waits

count-cleanup-abort :
    (m : DelegationManager) (ticket : ℕ) (id from : String)
    → count_of (cleanup (abort m ticket) id from) from ≡ count_of m from - 1
unfolding abort settle
count-cleanup-abort m ticket id from = count-cleanup (abort m ticket) id from

resume-count :
    (registry : NodeRegistry) (m : DelegationManager) (ticket : ℕ) (run : Run) (now : ℕ)
    → find_run ticket m.runs ≡ some (gone run)
    → count_of (resume registry m ticket now).0 run.request.from_node_id
      ≡ count_of m run.request.from_node_id - 1
unfolding resume resume_found resume_run
resume-count registry m ticket run now at =
    let m' = record m { runs = keep (λ r. not (r.ticket == ticket)) m.runs } in
    ap
      (λ (r : Option Run).
        count_of (resume_found registry m ticket r now).0 run.request.from_node_id)
      at
    ∙ aborted-count registry m' (gone run) now refl

-- When a delegation whose call waits for a node is cancelled and the call then goes on, the count of
-- active delegations of the node that delegated goes down by two, since both clean up.
pub cancel-count :
    (registry : NodeRegistry) (m : DelegationManager) (reason : String) (active : ActiveDelegation)
    (run : Run) (now : ℕ)
    → lookup run.request.delegation_id m.delegations ≡ some active
    → find_run active.abort_controller m.runs ≡ some run
    → run.answer ≡ awaiting
    → run.request.from_node_id ≡ active.from_node_id
    → count_of
        (resume registry
          (cancel m run.request.delegation_id reason).0
          active.abort_controller
          now).0
        active.from_node_id
      ≡ count_of m active.from_node_id - 2
cancel-count registry m reason active run now found at waits same =
    let id = run.request.delegation_id in
    let m' = cleanup (abort m active.abort_controller) id active.from_node_id in
    let resumed =
      resume-count registry m' active.abort_controller run now
        (cleanup-find m active run id at waits) in
    let dropped = count-cleanup-abort m active.abort_controller id active.from_node_id in
    let counted : count_of (resume registry m' active.abort_controller now).0 active.from_node_id
        ≡ count_of m active.from_node_id - 2 =
      subst
        (λ (from : String).
          count_of (resume registry m' active.abort_controller now).0 from ≡ count_of m' from - 1
          → count_of m' active.from_node_id ≡ count_of m active.from_node_id - 1
          → count_of (resume registry m' active.abort_controller now).0 active.from_node_id
            ≡ count_of m active.from_node_id - 2)
        (sym same) (λ r d. omega (arith, r, d)) resumed dropped in
    ap
      (λ (k : DelegationManager).
        count_of (resume registry k active.abort_controller now).0 active.from_node_id)
      (cancel-cleanup m reason active run found at waits)
    ∙ counted
