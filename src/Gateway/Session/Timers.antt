-- ===== src/Gateway/Session/Timers.antt =====
-- The timers of packages/gateway/src/sessions/session-manager.ts follow the session states.
use templar.Prelude.{
  ℕ, ◌+◌, ◌≡◌, refl, ◌⊎◌, Bool, true, false, Bool-cases, Option, none, some, Option-cases, [], ◌∷◌,
  String, arith, inl, inr, if◌then◌else◌, str_eq, eq_iff,
}
use templar.Prelude.Maps.{Map, lookup, insert, erase, has, lookup-insert, lookup-erase, has-lookup}
use templar.Prelude.Results.{ok, err}
use templar.Gateway.Errors.{Outcome}
use templar.Gateway.SessionProtocol.{
  SessionState, connected, idle, suspended, disconnected, SessionEvent, TransitionResult,
  transition, SessionInfo, SessionIdentityContext, is_disconnected, same_state,
}
use templar.Gateway.Session.{
  SessionManager, SessionManagerConfig, init, clear_timers, start_idle_timer, update_timers,
  cleanup_session, new_session, create_session, updated, apply_result, handle_event,
  update_identity_context, destroy_session, dispose, clear_all,
}

abbrev pub armed : Option ℕ → Bool
armed none = false
armed (some due) = true

abbrev pub in_state : SessionState → Option SessionInfo → Bool
in_state k none = false
in_state k (some s) = same_state k s.state

-- At every node: an idle timer is armed exactly while a session is connected, and a suspend timer
-- exactly while one is idle; no session stays disconnected.
abbrev pub TimedAt : SessionManager → String → Type 0
TimedAt m n =
    (armed (lookup n m.idle_timers) ≡ in_state connected (lookup n m.sessions))
    × (armed (lookup n m.suspend_timers) ≡ in_state idle (lookup n m.sessions))
    × (in_state disconnected (lookup n m.sessions) ≡ false)

abbrev pub IsTimed : SessionManager → Type 0
IsTimed m = (n : String) → TimedAt m n

pub init-IsTimed : (config : SessionManagerConfig) → IsTimed (init config)
unfolding lookup
init-IsTimed config n = (refl, refl, refl)

abbrev pub idle_due : ℕ → SessionState → Option ℕ
idle_due due connected = some due
idle_due due _ = none

abbrev pub suspend_due : ℕ → SessionState → Option ℕ
suspend_due due idle = some due
suspend_due due _ = none

module _ (m : SessionManager) (node_id : String) (now : ℕ) where
  pub lookup-idle_timers :
      (k : SessionState) (n : String)
      → lookup n (update_timers m node_id now k).idle_timers ≡ (
          if str_eq node_id n
          then idle_due (now + m.config.session_timeout) k
          else lookup n m.idle_timers)
  unfolding update_timers
  lookup-idle_timers connected n = ground (
    arith,
    lookup-erase node_id n m.idle_timers,
    lookup-insert node_id n (now + m.config.session_timeout) (erase node_id m.idle_timers),
  )
  lookup-idle_timers idle n = lookup-erase node_id n m.idle_timers
  lookup-idle_timers suspended n = lookup-erase node_id n m.idle_timers
  lookup-idle_timers disconnected n = lookup-erase node_id n m.idle_timers

  pub lookup-suspend_timers :
      (k : SessionState) (n : String)
      → lookup n (update_timers m node_id now k).suspend_timers ≡ (
          if str_eq node_id n
          then suspend_due (now + m.config.suspend_timeout) k
          else lookup n m.suspend_timers)
  unfolding update_timers
  lookup-suspend_timers connected n = lookup-erase node_id n m.suspend_timers
  lookup-suspend_timers idle n = ground (
    arith,
    lookup-erase node_id n m.suspend_timers,
    lookup-insert node_id n (now + m.config.suspend_timeout) (erase node_id m.suspend_timers),
  )
  lookup-suspend_timers suspended n = lookup-erase node_id n m.suspend_timers
  lookup-suspend_timers disconnected n = lookup-erase node_id n m.suspend_timers

  pub sessions-update_timers :
      (k : SessionState) → (update_timers m node_id now k).sessions ≡ m.sessions
  unfolding update_timers
  sessions-update_timers connected = refl
  sessions-update_timers idle = refl
  sessions-update_timers suspended = refl
  sessions-update_timers disconnected = refl

cleanup-TimedAt :
    (m : SessionManager) (node_id n : String)
    → (str_eq node_id n ≡ false → TimedAt m n)
    → TimedAt (cleanup_session m node_id) n
unfolding cleanup_session
cleanup-TimedAt m node_id n t = elim (Bool-cases (str_eq node_id n)) [
  | inl same ↦ ground (
    arith,
    lookup-erase node_id n m.idle_timers,
    lookup-erase node_id n m.suspend_timers,
    lookup-erase node_id n m.sessions,
  )
  | inr other ↦ ground (
    arith,
    t other,
    lookup-erase node_id n m.idle_timers,
    lookup-erase node_id n m.suspend_timers,
    lookup-erase node_id n m.sessions,
  )
]

-- The manager after the new session `s` is stored and the timers are set for its state.
abbrev pub moved : SessionManager → String → ℕ → SessionInfo → SessionManager
moved m node_id now s =
    update_timers (record m { sessions = insert node_id s m.sessions }) node_id now s.state

moved-TimedAt :
    (m : SessionManager) (node_id : String) (now : ℕ) (s : SessionInfo) (n : String)
    → IsTimed m
    → (str_eq node_id n ≡ false) ⊎ (is_disconnected s.state ≡ false)
    → TimedAt (moved m node_id now s) n
moved-TimedAt m node_id now s n t h =
    let m1 : SessionManager = record m { sessions = insert node_id s m.sessions } in
    ground (
      arith,
      t n,
      lookup-idle_timers m1 node_id now s.state n,
      lookup-suspend_timers m1 node_id now s.state n,
      sessions-update_timers m1 node_id now s.state,
      lookup-insert node_id n s m.sessions,
    )

apply_result-IsTimed :
    (m : SessionManager) (node_id : String) (now : ℕ) (s : SessionInfo) (r : TransitionResult)
    → IsTimed m
    → IsTimed (apply_result m node_id now s r).0
unfolding apply_result updated
apply_result-IsTimed m node_id now s r t n = elim (Bool-cases r.valid) [
  | inl valid ↦ rw valid (elim (Bool-cases (is_disconnected r.state)) [
    | inl gone ↦ rw gone (
        cleanup-TimedAt (moved m node_id now (updated s now r)) node_id n
          (λ other. moved-TimedAt m node_id now (updated s now r) n t (inl other)))
    | inr stays ↦ rw stays (moved-TimedAt m node_id now (updated s now r) n t (inr stays))
  ])
  | inr invalid ↦ rw invalid (t n)
]

-- The manager after a call: the new one, or the same if the call throws.
abbrev pub after : {A : Type 0} → SessionManager → Outcome A → (A → SessionManager) → SessionManager
after m (ok a) f = f a
after m (err e) f = m

pub create_session-IsTimed :
    (m : SessionManager) (uuid : String) (now : ℕ) (node_id : String)
    (context : Option SessionIdentityContext)
    → IsTimed m
    → IsTimed (after m (create_session m uuid now node_id context) (λ p. p.0))
unfolding create_session start_idle_timer
create_session-IsTimed m uuid now node_id context t n = elim (Bool-cases (has node_id m.sessions)) [
  | inl old ↦ rw old (t n)
  | inr new ↦
      let due = now + m.config.session_timeout in
      rw new (
        ground (
          arith,
          t n,
          t node_id,
          new,
          eq_iff node_id n,
          has-lookup node_id m.sessions,
          lookup-insert node_id n (new_session uuid now node_id context) m.sessions,
          lookup-erase node_id n m.idle_timers,
          lookup-insert node_id n due (erase node_id m.idle_timers),
        ))
]

pub handle_event-IsTimed :
    (m : SessionManager) (node_id : String) (now : ℕ) (event : SessionEvent)
    → IsTimed m
    → IsTimed (after m (handle_event m node_id now event) (λ p. p.0))
unfolding handle_event
handle_event-IsTimed m node_id now event t = elim (Option-cases (lookup node_id m.sessions)) [
  | inl e ↦ rw (e, handle_event) t
  | inr (s, e) ↦
      rw (e, handle_event) (apply_result-IsTimed m node_id now s (transition s.state event) t)
]

pub update_identity_context-IsTimed :
    (deep_equal : Option SessionIdentityContext → Option SessionIdentityContext → Bool)
    (m : SessionManager) (node_id : String) (context : Option SessionIdentityContext)
    → IsTimed m
    → IsTimed (after m (update_identity_context deep_equal m node_id context) (λ p. p.0))
unfolding update_identity_context
update_identity_context-IsTimed deep_equal m node_id context t n =
    elim (Option-cases (lookup node_id m.sessions)) [
      | inl e ↦ rw (e, update_identity_context) (t n)
      | inr (s, e) ↦
          rw (e, update_identity_context)
            (elim (Bool-cases (deep_equal s.identity_context context)) [
              | inl same ↦ rw same (t n)
              | inr other ↦
                  let s' : SessionInfo = record s { identity_context = context } in
                  rw other (
                    ground (arith, t n, e, eq_iff node_id n, lookup-insert node_id n s' m.sessions))
            ])
    ]

pub destroy_session-IsTimed :
    (m : SessionManager) (node_id : String)
    → IsTimed m
    → IsTimed (after m (destroy_session m node_id) (λ m'. m'))
unfolding destroy_session
destroy_session-IsTimed m node_id t n = elim (Bool-cases (has node_id m.sessions)) [
  | inl e ↦ rw e (cleanup-TimedAt m node_id n (λ _. t n))
  | inr e ↦ rw e (t n)
]

-- Disposing clears the timers of every session, so none is left.
lookup-clear_all :
    (m : SessionManager) (l : Map SessionInfo) (n : String)
    → (lookup n (clear_all m l).idle_timers ≡ (if has n l then none else lookup n m.idle_timers))
      × (lookup n (clear_all m l).suspend_timers
          ≡ (if has n l then none else lookup n m.suspend_timers))
unfolding clear_all clear_timers has
lookup-clear_all m [] n = (refl, refl)
lookup-clear_all m ((node_id, s) ∷ l) n = ground (
  arith,
  lookup-clear_all (clear_timers m node_id) l n,
  lookup-erase node_id n m.idle_timers,
  lookup-erase node_id n m.suspend_timers,
)

pub dispose-no_timers :
    (m : SessionManager) (n : String)
    → IsTimed m
    → (lookup n (dispose m).idle_timers ≡ none) × (lookup n (dispose m).suspend_timers ≡ none)
unfolding dispose
dispose-no_timers m n t =
    ground (arith, t n, lookup-clear_all m m.sessions n, has-lookup n m.sessions)
