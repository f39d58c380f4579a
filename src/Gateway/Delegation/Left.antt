-- ===== src/Gateway/Delegation/Left.antt =====
-- packages/gateway/src/delegation-manager.ts: the nodes from which the calls of `delegate` can still have
-- an answer, and the calls of the manager that leave them as they are.
use templar.Prelude.{
  ℕ, ◌+◌, Option, none, some, List, [], ◌∷◌, map, String, length, ◌≡◌, refl, ap, ◌∙◌, arith,
}
use templar.Prelude.Maps.{Map, lookup}
use templar.Gateway.Delegation.{
  Creating, DelegationManager, DelegationRequest, DelegationStatus, ActiveDelegation, Run, cleanup,
}
use templar.Gateway.Delegation.Answers.{
  settle_run, abort_run, settle, abort, resolve_pending, cancel_found, cancel, cancel_all,
  resolve_frame, handle_result, abort_all, dispose,
}
use templar.Gateway.Delegation.Progress.{remaining}

-- The nodes of a request, and those of the calls that wait for the store.
abbrev pub nodes_of : DelegationRequest → ℕ
nodes_of request = 1 + length request.fallback_node_ids

unfoldable pub waiting_nodes : List Creating → ℕ
waiting_nodes [] = 0
waiting_nodes (c ∷ calls) = nodes_of c.request + waiting_nodes calls

abbrev pub stored_nodes : Option (List Creating) → ℕ
stored_nodes none = 0
stored_nodes (some calls) = waiting_nodes calls

-- The nodes from which the calls can still have an answer.
abbrev pub left : DelegationManager → ℕ
left m = remaining m.runs + stored_nodes m.store

remaining-settle :
    (ticket : ℕ) (value : Option DelegationStatus) (runs : List Run)
    → remaining (map (settle_run ticket value) runs) ≡ remaining runs
unfolding remaining
remaining-settle ticket value [] = refl
remaining-settle ticket value (r ∷ runs) = ground (arith, remaining-settle ticket value runs)

remaining-abort :
    (ticket : ℕ) (runs : List Run) → remaining (map (abort_run ticket) runs) ≡ remaining runs
unfolding remaining
remaining-abort ticket [] = refl
remaining-abort ticket (r ∷ runs) = ground (arith, remaining-abort ticket runs)

pub left-settle :
    (m : DelegationManager) (ticket : ℕ) (value : Option DelegationStatus)
    → left (settle m ticket value) ≡ left m
unfolding settle
left-settle m ticket value =
    ap (λ n. n + stored_nodes m.store) (remaining-settle ticket value m.runs)

pub left-abort : (m : DelegationManager) (ticket : ℕ) → left (abort m ticket) ≡ left m
unfolding abort settle
left-abort m ticket =
    ap (λ n. n + stored_nodes m.store)
      (remaining-abort ticket (map (settle_run ticket none) m.runs)
        ∙ remaining-settle ticket none m.runs)

left-resolve_pending :
    (m : DelegationManager) (id : String) (found : Option ℕ)
    → left (resolve_pending m id found) ≡ left m
left-resolve_pending m id none = refl
left-resolve_pending m id (some ticket) = left-settle m ticket none

pub left-cancel_found :
    (m : DelegationManager) (id reason : String) (found : Option ActiveDelegation)
    → left (cancel_found m id reason found).0 ≡ left m
unfolding cancel_found cleanup
left-cancel_found m id reason none = refl
left-cancel_found m id reason (some active) =
    let m' = abort m active.abort_controller in
    left-resolve_pending m' id (lookup id m'.pending_node_resolvers)
    ∙ left-abort m active.abort_controller

pub left-cancel_all :
    (m : DelegationManager) (ids : List String) (reason : String)
    → left (cancel_all m ids reason).0 ≡ left m
unfolding cancel_all cancel
left-cancel_all m [] reason = refl
left-cancel_all m (id ∷ ids) reason =
    left-cancel_all (cancel m id reason).0 ids reason
    ∙ left-cancel_found m id reason (lookup id m.delegations)

left-resolve_frame :
    (m : DelegationManager) (id : String) (status : DelegationStatus) (found : Option ℕ)
    → left (resolve_frame m id status found) ≡ left m
left-resolve_frame m id status none = refl
left-resolve_frame m id status (some ticket) = left-settle m ticket (some status)

pub left-handle_result :
    (m : DelegationManager) (id : String) (status : DelegationStatus)
    → left (handle_result m id status) ≡ left m
unfolding handle_result
left-handle_result m id status =
    let framed = left-resolve_frame m id status (lookup id m.pending_node_resolvers) in
    ground (framed, arith)

left-abort_all :
    (m : DelegationManager) (entries : Map ActiveDelegation) → left (abort_all m entries) ≡ left m
unfolding abort_all
left-abort_all m [] = refl
left-abort_all m ((id, active) ∷ rest) =
    let m' = abort m active.abort_controller in
    let found = lookup id m'.pending_node_resolvers in
    left-abort_all (resolve_pending m' id found) rest
    ∙ left-resolve_pending m' id found
    ∙ left-abort m active.abort_controller

pub left-dispose : (m : DelegationManager) → left (dispose m) ≡ left m
unfolding dispose
left-dispose m = left-abort_all m m.delegations
