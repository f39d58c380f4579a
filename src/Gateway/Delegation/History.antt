-- ===== src/Gateway/Delegation/History.antt =====
-- packages/gateway/src/delegation-manager.ts: the calls of a manager in any order, with the steps that
-- its timers and its settled answers take.
use templar.Prelude.{ℕ, none, List, [], ◌∷◌, String}
use templar.Gateway.Registry.{NodeRegistry}
use templar.Gateway.Delegation.{DelegationManager, DelegationRequest, DelegationStatus, Step}
use templar.Gateway.Delegation.Steps.{delegate, after_create}
use templar.Gateway.Delegation.Answers.{
  settle, abort, cancel, sweep, cleanup_node, handle_result, resume, dispose,
}

-- `times_out` is the timer of a node and `aborts` that of a delegation.
pub data Call : Type 0 where
  delegates : NodeRegistry → DelegationRequest → (now : ℕ) → Call
  stores : NodeRegistry → (index now : ℕ) → Call
  cancels : (id reason : String) → Call
  answers : (id : String) → DelegationStatus → Call
  times_out aborts : (ticket : ℕ) → Call
  resumes : NodeRegistry → (ticket now : ℕ) → Call
  sweeps : (now : ℕ) → Call
  cleans_up : (node_id : String) → Call
  disposes : Call

unfoldable pub step : DelegationManager → Call → Step
step m (delegates registry request now) = delegate registry m request now
step m (stores registry index now) = after_create registry m index now m.store
step m (cancels id reason) = cancel m id reason
step m (answers id status) = (handle_result m id status, [])
step m (times_out ticket) = (settle m ticket none, [])
step m (aborts ticket) = (abort m ticket, [])
step m (resumes registry ticket now) = resume registry m ticket now
step m (sweeps now) = sweep m now
step m (cleans_up node_id) = cleanup_node m node_id
step m disposes = (dispose m, [])

unfoldable pub run : DelegationManager → List Call → DelegationManager
unfolding step
run m [] = m
run m (call ∷ calls) = run (step m call).0 calls
