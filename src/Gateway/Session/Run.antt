-- ===== src/Gateway/Session/Run.antt =====
-- Histories of packages/gateway/src/sessions/session-manager.ts.
use templar.Prelude.{
  ℕ, ◌+◌, ◌≡◌, refl, sym, ap, ◌∙◌, Bool, true, false, Option, none, some, List, [], ◌∷◌, String,
  arith, eq_refl,
}
use templar.Prelude.Maps.{lookup, insert, lookup-insert}
use templar.Gateway.SessionProtocol.{
  SessionState, connected, idle, suspended, SessionEvent, idle_timeout, suspend_timeout,
  TransitionResult, transition, SessionInfo, SessionIdentityContext, is_disconnected,
}
use templar.Gateway.Session.{
  SessionManager, SessionManagerConfig, init, create_session, handle_event, apply_result,
  update_identity_context, destroy_session, dispose, on_transition, fire_idle, fire_suspend,
  updated,
}
use templar.Gateway.Session.Timers.{
  IsTimed, TimedAt, armed, in_state, after, init-IsTimed, create_session-IsTimed,
  handle_event-IsTimed, update_identity_context-IsTimed, destroy_session-IsTimed, dispose-no_timers,
  moved, lookup-idle_timers, lookup-suspend_timers, sessions-update_timers,
}

pub data Call : Type 0 where
  creates : (uuid : String) (now : ℕ) (node_id : String) → Option SessionIdentityContext → Call
  handles : (node_id : String) (now : ℕ) → SessionEvent → Call
  updates : (node_id : String) → Option SessionIdentityContext → Call
  destroys : String → Call
  listens : ℕ → Call
  disposes : Call

module _ (deep_equal : Option SessionIdentityContext → Option SessionIdentityContext → Bool) where
  unfoldable pub step : SessionManager → Call → SessionManager
  step m (creates uuid now node_id context) =
      after m (create_session m uuid now node_id context) (λ p. p.0)
  step m (handles node_id now event) = after m (handle_event m node_id now event) (λ p. p.0)
  step m (updates node_id context) =
      after m (update_identity_context deep_equal m node_id context) (λ p. p.0)
  step m (destroys node_id) = after m (destroy_session m node_id) (λ m'. m')
  step m (listens handler) = on_transition m handler
  step m disposes = dispose m

  unfoldable pub run : SessionManager → List Call → SessionManager
  run m [] = m
  run m (c ∷ calls) = run (step m c) calls

  sessions-dispose : (m : SessionManager) → (dispose m).sessions ≡ []
  unfolding dispose
  sessions-dispose m = refl

  step-IsTimed : (m : SessionManager) (c : Call) → IsTimed m → IsTimed (step m c)
  unfolding step on_transition lookup
  step-IsTimed m (creates uuid now node_id context) t =
      create_session-IsTimed m uuid now node_id context t
  step-IsTimed m (handles node_id now event) t = handle_event-IsTimed m node_id now event t
  step-IsTimed m (updates node_id context) t =
      update_identity_context-IsTimed deep_equal m node_id context t
  step-IsTimed m (destroys node_id) t = destroy_session-IsTimed m node_id t
  step-IsTimed m (listens handler) t = t
  step-IsTimed m disposes t = λ n. ground (arith, dispose-no_timers m n t, sessions-dispose m)

  run-IsTimed : (calls : List Call) (m : SessionManager) → IsTimed m → IsTimed (run m calls)
  unfolding run
  run-IsTimed [] m t = t
  run-IsTimed (c ∷ calls) m t = run-IsTimed calls (step m c) (step-IsTimed m c t)

  -- After any creations, events, identity updates, destructions, listeners and disposals on a new
  -- manager, none of which restores a snapshot, and whether they throw or not, every node has an idle
  -- timer exactly while its session is connected and a suspend timer exactly while it is idle, and no
  -- session that is kept is disconnected.
  pub session_run-IsTimed :
      (config : SessionManagerConfig) (calls : List Call) (n : String)
      → TimedAt (run (init config) calls) n
  session_run-IsTimed config calls = run-IsTimed calls (init config) (init-IsTimed config)

in_state-some :
    (k : SessionState) (o : Option SessionInfo)
    → in_state k o ≡ true
    → (s : SessionInfo) × (o ≡ some s) × (s.state ≡ k)
in_state-some k none h = cc
in_state-some k (some s) h = (s, refl, ground arith)

-- A valid result that does not disconnect stores the session and sets the timers of its state.
apply_result-moved :
    (m : SessionManager) (n : String) (now : ℕ) (s : SessionInfo) (r : TransitionResult)
    → r.valid ≡ true
    → is_disconnected r.state ≡ false
    → (apply_result m n now s r).0 ≡ moved m n now (updated s now r)
unfolding apply_result updated
apply_result-moved m n now s r v d = rw (v, d)

module _ (m : SessionManager) (n : String) (now due : ℕ) (t : IsTimed m) where
  -- In a manager whose timers follow its sessions, a due idle timer never throws: its session
  -- becomes idle, with a suspend timer for the configured time and no idle timer.
  pub fire_idle_lem :
      lookup n m.idle_timers ≡ some due
      → let m' = after m (fire_idle m n now) (λ p. p.0) in
        (in_state idle (lookup n m'.sessions) ≡ true)
        × (lookup n m'.suspend_timers ≡ some (now + m.config.suspend_timeout))
        × (lookup n m'.idle_timers ≡ none)
  unfolding fire_idle updated transition
  fire_idle_lem e =
      let (s, es, ek) = in_state-some connected (lookup n m.sessions) (sym (t n).0 ∙ ap armed e) in
      let r : TransitionResult = transition connected idle_timeout in
      let m1 : SessionManager = record m { sessions = insert n (updated s now r) m.sessions } in
      rw
        (
          es,
          fire_idle,
          ap (λ k. transition k idle_timeout) ek,
          apply_result-moved m n now s r refl refl,
        )
        (
          ground (
            arith,
            eq_refl n,
            sessions-update_timers m1 n now idle,
            lookup-insert n n (updated s now r) m.sessions,
          ),
          ground (arith, eq_refl n, lookup-suspend_timers m1 n now idle n),
          ground (arith, eq_refl n, lookup-idle_timers m1 n now idle n),
        )

  -- In a manager whose timers follow its sessions, a due suspend timer never throws: its
  -- session becomes suspended, with no timer.
  pub fire_suspend_lem :
      lookup n m.suspend_timers ≡ some due
      → let m' = after m (fire_suspend m n now) (λ p. p.0) in
        (in_state suspended (lookup n m'.sessions) ≡ true)
        × (lookup n m'.suspend_timers ≡ none)
        × (lookup n m'.idle_timers ≡ none)
  unfolding fire_suspend updated transition
  fire_suspend_lem e =
      let (s, es, ek) = in_state-some idle (lookup n m.sessions) (sym (t n).1 ∙ ap armed e) in
      let r : TransitionResult = transition idle suspend_timeout in
      let m1 : SessionManager = record m { sessions = insert n (updated s now r) m.sessions } in
      rw
        (
          es,
          fire_suspend,
          ap (λ k. transition k suspend_timeout) ek,
          apply_result-moved m n now s r refl refl,
        )
        (
          ground (
            arith,
            eq_refl n,
            sessions-update_timers m1 n now suspended,
            lookup-insert n n (updated s now r) m.sessions,
          ),
          ground (arith, eq_refl n, lookup-suspend_timers m1 n now suspended n),
          ground (arith, eq_refl n, lookup-idle_timers m1 n now suspended n),
        )
