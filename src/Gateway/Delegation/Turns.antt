-- ===== src/Gateway/Delegation/Turns.antt =====
-- packages/gateway/src/delegation-manager.ts: how often the calls of `delegate` go on.
use templar.Prelude.{
  ℕ, ◌+◌, ◌-◌, ◌≤◌, Bool, true, false, not, Option, none, some, List, [], ◌∷◌, ◌++◌, if◌then◌else◌,
  ◌==◌, length, keep, ◌≡◌, refl, ap, arith,
}
use templar.Prelude.Maps.{lookup}
use templar.Gateway.Registry.{NodeRegistry}
use templar.Gateway.Delegation.{
  Creating, DelegationManager, DelegationManagerConfig, DelegationRequest, Answer, awaiting,
  settled, Run, init, count_of, try_node,
}
use templar.Gateway.Delegation.Steps.{
  new_run, admit, try_primary, begin, create_or_begin, delegate, skip_call, take_call, begin_taken,
  after_create,
}
use templar.Gateway.Delegation.Answers.{
  find_run, cancel, sweep, cleanup_node, resume_run, resume_found, resume,
}
use templar.Gateway.Delegation.History.{
  Call, delegates, stores, cancels, answers, times_out, aborts, resumes, sweeps, cleans_up,
  disposes, step, run,
}
use templar.Gateway.Delegation.Shrinks.{resume_run-IsWithin, try_primary-IsWithin}
use templar.Gateway.Delegation.Progress.{
  remaining, try_node-runs, next_fallback-remaining, find-remaining, resume_run-remaining,
}
use templar.Gateway.Delegation.Left.{
  nodes_of, waiting_nodes, stored_nodes, left, left-settle, left-abort, left-cancel_found,
  left-cancel_all, left-handle_result, left-dispose,
}

try_primary-remaining :
    (registry : NodeRegistry) (m : DelegationManager) (call : Run) (now : ℕ)
    → remaining (try_primary registry m call now).0.runs
      ≤ remaining m.runs + (1 + length call.untried)
unfolding try_primary remaining
try_primary-remaining registry m call now =
    let rest =
      next_fallback-remaining registry call.untried (try_node registry m call call.node_id now).0
        (record call { failed_nodes = call.node_id ∷ [] }) now in
    ground (arith, rest, try_node-runs registry m call call.node_id now)

left-begin :
    (registry : NodeRegistry) (m : DelegationManager) (request : DelegationRequest)
    (from_count now : ℕ)
    → left (begin registry m request from_count now).0 ≤ left m + nodes_of request
unfolding begin admit
left-begin registry m request from_count now =
    let m' = admit m request from_count now in
    let same = ap (λ p. p.1) (try_primary-IsWithin registry m' (new_run m request) now).config in
    omega (arith, try_primary-remaining registry m' (new_run m request) now, ap stored_nodes same)

waiting_nodes-append :
    (calls : List Creating) (c : Creating)
    → waiting_nodes (calls ++ c ∷ []) ≡ waiting_nodes calls + nodes_of c.request
unfolding waiting_nodes
waiting_nodes-append [] c = omega arith
waiting_nodes-append (d ∷ calls) c = omega (arith, waiting_nodes-append calls c)

left-create :
    (registry : NodeRegistry) (m : DelegationManager) (request : DelegationRequest) (now : ℕ)
    (store : Option (List Creating))
    → m.store ≡ store
    → left (create_or_begin registry m request now store).0 ≤ left m + nodes_of request
unfolding create_or_begin
left-create registry m request now none e =
    left-begin registry m request (count_of m request.from_node_id) now
left-create registry m request now (some calls) e =
    omega (arith, ap stored_nodes e, waiting_nodes-append calls _)

abbrev Taken : ℕ → Option (Creating × List Creating) → Type 0
Taken n none = Unit
Taken n (some (c, rest)) = waiting_nodes rest + nodes_of c.request ≡ n

either-Taken :
    (n : ℕ) (b : Bool) (x y : Option (Creating × List Creating))
    → Taken n x
    → Taken n y
    → Taken n (if b then x else y)
either-Taken n true x y tx ty = tx
either-Taken n false x y tx ty = ty

skip_call-Taken :
    (c : Creating) (n : ℕ) (o : Option (Creating × List Creating))
    → Taken n o
    → Taken (nodes_of c.request + n) (skip_call c o)
unfolding waiting_nodes
skip_call-Taken c n none t = tt
skip_call-Taken c n (some (found, rest)) t = omega (arith, t)

take_call-Taken : (i : ℕ) (calls : List Creating) → Taken (waiting_nodes calls) (take_call i calls)
unfolding waiting_nodes
take_call-Taken i [] = tt
take_call-Taken i (c ∷ calls) =
    either-Taken (waiting_nodes (c ∷ calls)) (i == 0) (some (c, calls))
      (skip_call c (take_call (i - 1) calls)) (omega arith)
      (skip_call-Taken c (waiting_nodes calls) (take_call (i - 1) calls)
        (take_call-Taken (i - 1) calls))

left-begin_taken :
    (registry : NodeRegistry) (m : DelegationManager) (now n : ℕ)
    (o : Option (Creating × List Creating))
    → Taken n o
    → stored_nodes m.store ≡ n
    → left (begin_taken registry m now o).0 ≤ left m
left-begin_taken registry m now n none t e = omega arith
left-begin_taken registry m now n (some (c, rest)) t e =
    omega
      (arith, t, e, left-begin registry (record m { store = some rest }) c.request c.from_count now)

left-after_create :
    (registry : NodeRegistry) (m : DelegationManager) (i now : ℕ) (store : Option (List Creating))
    → m.store ≡ store
    → left (after_create registry m i now store).0 ≤ left m
unfolding after_create
left-after_create registry m i now none e = omega arith
left-after_create registry m i now (some calls) e =
    left-begin_taken registry m now (waiting_nodes calls) (take_call i calls)
      (take_call-Taken i calls) (ap stored_nodes e)

-- Whether a call goes on when it is resumed.
abbrev pub answered : Answer → ℕ
answered awaiting = 0
answered (settled value) = 1

abbrev pub goes_on : Option Run → ℕ
goes_on none = 0
goes_on (some call) = answered call.answer

left-resume_run :
    (registry : NodeRegistry) (m : DelegationManager) (call : Run) (answer : Answer) (now : ℕ)
    → answered answer + left (resume_run registry m call answer now).0
      ≤ left m + (1 + length call.untried)
unfolding resume_run remaining
left-resume_run registry m call awaiting now = omega arith
left-resume_run registry m call (settled value) now = omega (
  arith,
  resume_run-remaining registry m call value now,
  ap (λ p. stored_nodes p.1) (resume_run-IsWithin registry m call (settled value) now).config,
)

left-resume :
    (registry : NodeRegistry) (m : DelegationManager) (ticket now : ℕ) (found : Option Run)
    → find_run ticket m.runs ≡ found
    → goes_on found + left (resume_found registry m ticket found now).0 ≤ left m
unfolding resume_found
left-resume registry m ticket now none e = omega arith
left-resume registry m ticket now (some call) e =
    let m' = record m { runs = keep (λ r. not (r.ticket == ticket)) m.runs } in
    omega
      (arith, left-resume_run registry m' call call.answer now, find-remaining ticket m.runs call e)

-- A call that goes on, and the nodes that a call brings.
unfoldable pub turn : DelegationManager → Call → ℕ
turn m (resumes registry ticket now) = goes_on (find_run ticket m.runs)
turn m _ = 0

abbrev pub brought : Call → ℕ
brought (delegates registry request now) = nodes_of request
brought _ = 0

left-step : (m : DelegationManager) (c : Call) → turn m c + left (step m c).0 ≤ left m + brought c
unfolding turn step delegate cancel sweep cleanup_node resume
left-step m (delegates registry request now) =
    ground (arith, left-create registry m request now m.store refl)
left-step m (stores registry index now) =
    omega (arith, left-after_create registry m index now m.store refl)
left-step m (cancels id reason) =
    omega (arith, left-cancel_found m id reason (lookup id m.delegations))
left-step m (answers id status) = omega (arith, left-handle_result m id status)
left-step m (times_out ticket) = omega (arith, left-settle m ticket none)
left-step m (aborts ticket) = omega (arith, left-abort m ticket)
left-step m (resumes registry ticket now) =
    omega (arith, left-resume registry m ticket now (find_run ticket m.runs) refl)
left-step m (sweeps now) = omega (arith, left-cancel_all m _ "ttl_expired")
left-step m (cleans_up node_id) = omega (arith, left-cancel_all m _ _)
left-step m disposes = omega (arith, left-dispose m)

-- How often a call goes on after an answer in a history, and the nodes of its requests.
unfoldable pub turns : DelegationManager → List Call → ℕ
turns m [] = 0
turns m (c ∷ calls) = turn m c + turns (step m c).0 calls

unfoldable pub requested : List Call → ℕ
requested [] = 0
requested (c ∷ calls) = brought c + requested calls

left-run :
    (m : DelegationManager) (calls : List Call)
    → turns m calls + left (run m calls) ≤ left m + requested calls
unfolding turns requested run
left-run m [] = omega arith
left-run m (c ∷ calls) = omega (arith, left-step m c, left-run (step m c).0 calls)

left-init : (config : DelegationManagerConfig) (has_store : Bool) → left (init config has_store) ≡ 0
unfolding remaining waiting_nodes
left-init config true = refl
left-init config false = refl

-- In any history of a new manager, with or without a store, the calls of delegate go on, after a node has
-- answered, failed or run out of time, at most as often altogether as there are nodes in the requests of
-- the history, counting the first node and the fallbacks of each.
pub delegation_turns :
    (config : DelegationManagerConfig) (has_store : Bool) (calls : List Call)
    → turns (init config has_store) calls ≤ requested calls
delegation_turns config has_store calls =
    omega (arith, left-run (init config has_store) calls, left-init config has_store)
