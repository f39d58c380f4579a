-- ===== src/Gateway/Session/Domain.antt =====
-- The nodes that have a session after each operation of packages/gateway/src/sessions/session-manager.ts.
use templar.Prelude.{
  ℕ, Bool, true, false, not, ◌&&◌, ◌||◌, Option, none, some, Bool-cases, List, map, String, str_eq,
  ◌≡◌, refl, arith, inl, inr, if◌then◌else◌, eq_iff,
}
use templar.Prelude.Maps.{lookup, has, insert}
use templar.Prelude.Domains.{has-insert, has-erase, has-some, has-insert_present}
use templar.Prelude.Results.{ok, err, IfOk}
use templar.Gateway.Errors.{left, node_already_registered}
use templar.Gateway.SessionProtocol.{
  SessionState, connected, idle, suspended, disconnected, SessionEvent, TransitionResult,
  transition, SessionInfo, SessionIdentityContext, is_disconnected,
}
use templar.Gateway.Session.{
  SessionManager, Notice, create_session, handle_event, handle_found, apply_result, updated,
  update_timers, cleanup_session, destroy_session, emit_transition, new_session, start_idle_timer,
  start_suspend_timer, clear_timers, clear_idle_timer, clear_suspend_timer,
}

pub create_session-sessions :
    (m : SessionManager) (uuid : String) (now : ℕ) (node_id : String)
    (context : Option SessionIdentityContext)
    → has node_id m.sessions ≡ false
    → (result : SessionManager × SessionInfo) × (create_session m uuid now node_id context
        ≡ ok result)
      × ((k : String) → has k result.0.sessions ≡ (str_eq node_id k || has k m.sessions))
      × (result.0.handlers ≡ m.handlers)
unfolding create_session start_idle_timer clear_idle_timer
create_session-sessions m uuid now node_id context unknown = (
  (
    start_idle_timer
        (record m { sessions = insert node_id (new_session uuid now node_id context) m.sessions })
        node_id now,
    new_session uuid now node_id context,
  ),
  rw unknown,
  λ k. has-insert node_id k (new_session uuid now node_id context) m.sessions,
  refl,
)

update_timers-sessions :
    (m : SessionManager) (node_id : String) (now : ℕ) (s : SessionState)
    → ((update_timers m node_id now s).sessions ≡ m.sessions)
      × ((update_timers m node_id now s).handlers ≡ m.handlers)
unfolding update_timers start_idle_timer start_suspend_timer clear_timers clear_idle_timer
    clear_suspend_timer
update_timers-sessions m node_id now connected = (refl, refl)
update_timers-sessions m node_id now idle = (refl, refl)
update_timers-sessions m node_id now suspended = (refl, refl)
update_timers-sessions m node_id now disconnected = (refl, refl)

-- Whether a transition ends the session.
abbrev pub ends : TransitionResult → Bool
ends result = result.valid && is_disconnected result.state

-- What an event leaves: the sessions of all nodes, but not that of a node that it disconnects, and one
-- notice for each handler.
pub record Handled (m : SessionManager) (node_id : String) (m' : SessionManager)
    (result : TransitionResult) (notices : List Notice) : Type 0 where
  pub kept :
      (k : String)
      → has k m'.sessions
        ≡ (if ends result then not (str_eq node_id k) && has k m.sessions else has k m.sessions)
  pub handlers_kept : m'.handlers ≡ m.handlers
  pub told :
      (session : SessionInfo) × (notices
        ≡ map
            (λ h. record { handler = h; node_id = node_id; result = result; session = session })
            m.handlers)

abbrev outcome : Bool → SessionState → SessionState → SessionEvent → TransitionResult
outcome valid state previous event = record {
  valid = valid;
  state = state;
  previous_state = previous;
  event = event;
}

apply_result-Handled :
    (m : SessionManager) (node_id : String) (now : ℕ) (session : SessionInfo) (valid : Bool)
    (state previous : SessionState) (event : SessionEvent)
    → lookup node_id m.sessions ≡ some session
    → Handled m node_id
        (apply_result m node_id now session (outcome valid state previous event)).0
        (outcome valid state previous event)
        (apply_result m node_id now session (outcome valid state previous event)).1
unfolding apply_result emit_transition update_timers cleanup_session start_idle_timer
    start_suspend_timer clear_timers clear_idle_timer clear_suspend_timer
apply_result-Handled m node_id now session false state previous event known = record {
  kept = λ k. refl;
  handlers_kept = refl;
  told = (session, refl);
}
apply_result-Handled m node_id now session true connected previous event known = record {
  kept = λ k.
      has-insert_present node_id k (updated session now (outcome true connected previous event))
        m.sessions (has-some node_id session m.sessions known);
  handlers_kept = refl;
  told = (updated session now (outcome true connected previous event), refl);
}
apply_result-Handled m node_id now session true idle previous event known = record {
  kept = λ k.
      has-insert_present node_id k (updated session now (outcome true idle previous event))
        m.sessions (has-some node_id session m.sessions known);
  handlers_kept = refl;
  told = (updated session now (outcome true idle previous event), refl);
}
apply_result-Handled m node_id now session true suspended previous event known = record {
  kept = λ k.
      has-insert_present node_id k (updated session now (outcome true suspended previous event))
        m.sessions (has-some node_id session m.sessions known);
  handlers_kept = refl;
  told = (updated session now (outcome true suspended previous event), refl);
}
apply_result-Handled m node_id now session true disconnected previous event known = record {
  kept = λ k. ground (
    arith,
    has-erase node_id k (
        insert node_id (updated session now (outcome true disconnected previous event)) m.sessions),
    has-insert node_id k (updated session now (outcome true disconnected previous event))
        m.sessions,
  );
  handlers_kept = refl;
  told = (updated session now (outcome true disconnected previous event), refl);
}

-- The session manager, the result and the notices of an event.
abbrev pub Done : Type 0
Done = SessionManager × TransitionResult × List Notice

pub handle_event-Handled :
    (m : SessionManager) (node_id : String) (now : ℕ) (event : SessionEvent)
    → IfOk (λ (d : Done). Handled m node_id d.0 d.1 d.2) (handle_event m node_id now event)
unfolding handle_event
handle_event-Handled m node_id now event = by_session (lookup node_id m.sessions) refl
  where
    by_session :
        (o : Option SessionInfo)
        → lookup node_id m.sessions ≡ o
        → IfOk (λ (d : Done). Handled m node_id d.0 d.1 d.2) (handle_found m node_id now event o)
    by_session none e = tt
    by_session (some session) e =
        let r = transition session.state event in
        apply_result-Handled m node_id now session r.valid r.state r.previous_state r.event e

pub destroy_session-sessions :
    (m : SessionManager) (node_id k : String)
    → (has k (left m (destroy_session m node_id)).sessions
        ≡ (not (str_eq node_id k) && has k m.sessions))
      × ((left m (destroy_session m node_id)).handlers ≡ m.handlers)
unfolding destroy_session cleanup_session clear_timers clear_idle_timer clear_suspend_timer
destroy_session-sessions m node_id k = elim (Bool-cases (has node_id m.sessions)) [
  | inl known ↦ rw known (has-erase node_id k m.sessions, refl)
  | inr unknown ↦ rw unknown (ground (arith, eq_iff node_id k), refl)
]

pub create_session-known :
    (m : SessionManager) (uuid : String) (now : ℕ) (node_id : String)
    (context : Option SessionIdentityContext)
    → has node_id m.sessions ≡ true
    → create_session m uuid now node_id context ≡ err (node_already_registered node_id)
unfolding create_session
create_session-known m uuid now node_id context known = rw known
