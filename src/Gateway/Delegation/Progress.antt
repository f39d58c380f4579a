-- ===== src/Gateway/Delegation/Progress.antt =====
-- packages/gateway/src/delegation-manager.ts: what the loop over the fallback nodes leaves to try.
use templar.Prelude.{
  ℕ, ◌+◌, ◌≤◌, Bool, not, Option, none, some, List, [], ◌∷◌, ◌++◌, String, ◌==◌, length, keep, ◌≡◌,
  arith,
}
use templar.Gateway.Registry.{NodeRegistry}
use templar.Gateway.Breaker.{record_failure}
use templar.Gateway.Delegation.{
  DelegationManager, DelegationStatus, refused, completed, failed, timeout, Run, settled,
  breaker_of, put_breaker, blocks, ask_node, try_node, try_fallback, cleanup,
}
use templar.Gateway.Delegation.Steps.{all_failed, next_fallback}
use templar.Gateway.Delegation.Answers.{find_run, resume_failed, resume_run}

-- The nodes from which the running calls can still have an answer.
unfoldable pub remaining : List Run → ℕ
remaining [] = 0
remaining (run ∷ runs) = 1 + (length run.untried + remaining runs)

ask_node-runs :
    (registry : NodeRegistry) (m : DelegationManager) (run : Run) (node_id : String) (now : ℕ)
    → (ask_node registry m run node_id now).0.runs ≡ m.runs
unfolding ask_node
ask_node-runs registry m run node_id now = ground arith

pub try_node-runs :
    (registry : NodeRegistry) (m : DelegationManager) (run : Run) (node_id : String) (now : ℕ)
    → (try_node registry m run node_id now).0.runs ≡ m.runs
unfolding try_node
try_node-runs registry m run node_id now =
    let (b, blocked) = blocks (breaker_of m node_id) now in
    let asked = ask_node-runs registry (put_breaker m node_id b) run node_id now in
    ground (arith, asked)

try_fallback-runs :
    (registry : NodeRegistry) (m : DelegationManager) (run : Run) (node_id : String) (now : ℕ)
    → (try_fallback registry m run node_id now).0.runs ≡ m.runs
unfolding try_fallback
try_fallback-runs registry m run node_id now =
    let (b, blocked) = blocks (breaker_of m node_id) now in
    let tried = try_node-runs registry (put_breaker m node_id b) run node_id now in
    ground (arith, tried)

all_failed-runs : (m : DelegationManager) (run : Run) → (all_failed m run).0.runs ≡ m.runs
unfolding all_failed cleanup
all_failed-runs m run = ground arith

pub next_fallback-remaining :
    (registry : NodeRegistry) (untried : List String) (m : DelegationManager) (run : Run) (now : ℕ)
    → remaining (next_fallback registry untried m run now).0.runs
      ≤ remaining m.runs + length untried
unfolding next_fallback remaining
next_fallback-remaining registry [] m run now = ground (arith, all_failed-runs m run)
next_fallback-remaining registry (node_id ∷ untried) m run now =
    let m' = (try_fallback registry m run node_id now).0 in
    let rest =
      next_fallback-remaining registry untried m'
        (record run { failed_nodes = run.failed_nodes ++ node_id ∷ [] }) now in
    ground (arith, rest, try_fallback-runs registry m run node_id now, all_failed-runs m run)

pub keep-remaining : (p : Run → Bool) (runs : List Run) → remaining (keep p runs) ≤ remaining runs
unfolding remaining
keep-remaining p [] = ground arith
keep-remaining p (r ∷ runs) = ground (arith, keep-remaining p runs)

pub find-remaining :
    (ticket : ℕ) (runs : List Run) (run : Run)
    → find_run ticket runs ≡ some run
    → 1 + (length run.untried + remaining (keep (λ r. not (r.ticket == ticket)) runs))
      ≤ remaining runs
unfolding remaining find_run
find-remaining ticket [] run at = ground (arith, at)
find-remaining ticket (r ∷ runs) run at =
    let rest = find-remaining ticket runs run in
    let less = keep-remaining (λ r. not (r.ticket == ticket)) runs in ground (arith, at, rest, less)

resume_failed-remaining :
    (registry : NodeRegistry) (m : DelegationManager) (run : Run) (value : Option DelegationStatus)
    (now : ℕ)
    → remaining (resume_failed registry m run value now).0.runs
      ≤ remaining m.runs + length run.untried
unfolding resume_failed
resume_failed-remaining registry m run value now =
    next_fallback-remaining registry run.untried
      (put_breaker m run.node_id (record_failure (breaker_of m run.node_id) now))
      (record run { failed_nodes = run.failed_nodes ++ run.node_id ∷ [] }) now

pub resume_run-remaining :
    (registry : NodeRegistry) (m : DelegationManager) (run : Run) (value : Option DelegationStatus)
    (now : ℕ)
    → remaining (resume_run registry m run (settled value) now).0.runs
      ≤ remaining m.runs + length run.untried
unfolding resume_run cleanup
resume_run-remaining registry m run none now = resume_failed-remaining registry m run none now
resume_run-remaining registry m run (some completed) now = ground arith
resume_run-remaining registry m run (some refused) now =
    resume_failed-remaining registry m run (some refused) now
resume_run-remaining registry m run (some failed) now =
    resume_failed-remaining registry m run (some failed) now
resume_run-remaining registry m run (some timeout) now =
    resume_failed-remaining registry m run (some timeout) now
