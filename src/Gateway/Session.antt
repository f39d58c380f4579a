-- ===== src/Gateway/Session.antt =====
-- packages/gateway/src/sessions/session-manager.ts. A timer is the time at which it is due; when it is due, `setTimeout`
-- makes the call of `handle_event` that `fire_idle` and `fire_suspend` model. The clock and
-- `randomUUID()` are arguments. Handlers are numbered, and a call returns what each is told; they
-- do not call back into the manager.
pub mod Timers
pub mod Run
pub mod Domain
mod Tests
use templar.Prelude.{
  ℕ, ◌+◌, Bool, true, false, Option, none, some, List, [], ◌∷◌, ◌++◌, map, String, if◌then◌else◌,
  keep, not,
}
use templar.Prelude.Maps.{Map, lookup, insert, erase, has, values}
use templar.Prelude.Results.{ok, err}
use templar.Gateway.SessionProtocol.{
  SessionState, connected, idle, suspended, disconnected, SessionEvent, idle_timeout,
  suspend_timeout, TransitionResult, transition, SessionInfo, SessionIdentityContext, is_reconnect,
  is_disconnected,
}
use templar.Gateway.Errors.{Outcome, node_already_registered, node_not_found, invalid_snapshot}

pub record SessionManagerConfig : Type 0 where
  pub session_timeout : ℕ
  pub suspend_timeout : ℕ

pub record SessionManager : Type 0 where
  pub config : SessionManagerConfig
  pub sessions : Map SessionInfo
  pub idle_timers : Map ℕ
  pub suspend_timers : Map ℕ
  pub handlers : List ℕ

-- What a handler is told of a transition.
pub record Notice : Type 0 where
  pub handler : ℕ
  pub node_id : String
  pub result : TransitionResult
  pub session : SessionInfo

abbrev pub init : SessionManagerConfig → SessionManager
init config = record {
  config = config;
  sessions = [];
  idle_timers = [];
  suspend_timers = [];
  handlers = [];
}

unfoldable pub clear_idle_timer : SessionManager → String → SessionManager
clear_idle_timer m node_id = record m { idle_timers = erase node_id m.idle_timers }

pub clear_suspend_timer : SessionManager → String → SessionManager
clear_suspend_timer m node_id = record m { suspend_timers = erase node_id m.suspend_timers }

pub clear_timers : SessionManager → String → SessionManager
unfolding clear_idle_timer clear_suspend_timer
clear_timers m node_id = clear_suspend_timer (clear_idle_timer m node_id) node_id

unfoldable pub start_idle_timer : SessionManager → String → ℕ → SessionManager
unfolding clear_idle_timer
start_idle_timer m node_id now =
    let m' = clear_idle_timer m node_id in
    record m' { idle_timers = insert node_id (now + m.config.session_timeout) m'.idle_timers }

pub start_suspend_timer : SessionManager → String → ℕ → SessionManager
unfolding clear_suspend_timer
start_suspend_timer m node_id now =
    let m' = clear_suspend_timer m node_id in
    record m' { suspend_timers = insert node_id (now + m.config.suspend_timeout) m'.suspend_timers }

-- `updateTimers`, on the state of the result.
pub update_timers : SessionManager → String → ℕ → SessionState → SessionManager
unfolding clear_timers start_idle_timer start_suspend_timer
update_timers m node_id now connected = start_idle_timer (clear_suspend_timer m node_id) node_id now
update_timers m node_id now idle = start_suspend_timer (clear_idle_timer m node_id) node_id now
update_timers m node_id now suspended = clear_timers m node_id
update_timers m node_id now disconnected = clear_timers m node_id

pub cleanup_session : SessionManager → String → SessionManager
unfolding clear_timers
cleanup_session m node_id =
    let m' = clear_timers m node_id in record m' { sessions = erase node_id m'.sessions }

emit_transition : SessionManager → String → TransitionResult → SessionInfo → List Notice
emit_transition m node_id result session =
    map (λ h. record { handler = h; node_id = node_id; result = result; session = session })
      m.handlers

abbrev pub new_session :
    (uuid : String) (now : ℕ) (node_id : String) → Option SessionIdentityContext → SessionInfo
new_session uuid now node_id identity_context = record {
  session_id = uuid;
  node_id = node_id;
  state = connected;
  connected_at = now;
  last_activity_at = now;
  reconnect_count = 0;
  identity_context = identity_context;
}

unfoldable pub create_session :
    SessionManager
    → (uuid : String) (now : ℕ) (node_id : String) → Option SessionIdentityContext
    → Outcome (SessionManager × SessionInfo)
unfolding start_idle_timer
create_session m uuid now node_id identity_context =
    if has node_id m.sessions
    then err (node_already_registered node_id)
    else let session = new_session uuid now node_id identity_context in
      ok (
        start_idle_timer (record m { sessions = insert node_id session m.sessions }) node_id now,
        session,
      )

pub updated : SessionInfo → ℕ → TransitionResult → SessionInfo
updated s now r = record s {
  state = r.state;
  last_activity_at = now;
  reconnect_count = if is_reconnect r.event then s.reconnect_count + 1 else s.reconnect_count;
}

-- `handleEvent` from the point where the session is found and the result known.
pub apply_result :
    SessionManager → String → ℕ → SessionInfo → TransitionResult → SessionManager × List Notice
unfolding updated update_timers cleanup_session emit_transition
apply_result m node_id now session result =
    if not result.valid
    then (m, emit_transition m node_id result session)
    else let session' = updated session now result in
      let m' = record m { sessions = insert node_id session' m.sessions } in
      let m'' = update_timers m' node_id now result.state in
      (
        if is_disconnected result.state then cleanup_session m'' node_id else m'',
        emit_transition m'' node_id result session',
      )

handle_found :
    SessionManager
    → String
    → ℕ
    → SessionEvent
    → Option SessionInfo
    → Outcome (SessionManager × TransitionResult × List Notice)
handle_found m node_id now event none = err (node_not_found node_id)
handle_found m node_id now event (some session) =
    let result = transition session.state event in
    let (m', notices) = apply_result m node_id now session result in ok (m', result, notices)

pub handle_event :
    SessionManager
    → String
    → ℕ
    → SessionEvent
    → Outcome (SessionManager × TransitionResult × List Notice)
unfolding handle_found
handle_event m node_id now event = handle_found m node_id now event (lookup node_id m.sessions)

update_found :
    (Option SessionIdentityContext → Option SessionIdentityContext → Bool)
    → SessionManager
    → String
    → Option SessionIdentityContext
    → Option SessionInfo
    → Outcome (SessionManager × Option SessionInfo)
update_found deep_equal m node_id context none = err (node_not_found node_id)
update_found deep_equal m node_id context (some session) =
    if deep_equal session.identity_context context
    then ok (m, none)
    else let session' : SessionInfo = record session { identity_context = context } in
      ok (record m { sessions = insert node_id session' m.sessions }, some session')

-- `deep_equal` is `isDeepStrictEqual` of node:util.
pub update_identity_context :
    (Option SessionIdentityContext → Option SessionIdentityContext → Bool)
    → SessionManager
    → String
    → Option SessionIdentityContext
    → Outcome (SessionManager × Option SessionInfo)
unfolding update_found
update_identity_context deep_equal m node_id context =
    update_found deep_equal m node_id context (lookup node_id m.sessions)

pub destroy_session : SessionManager → String → Outcome SessionManager
unfolding cleanup_session
destroy_session m node_id =
    if has node_id m.sessions then ok (cleanup_session m node_id) else err (node_not_found node_id)

pub get_all_sessions : SessionManager → List SessionInfo
get_all_sessions m = values m.sessions

unfoldable pub on_transition : SessionManager → ℕ → SessionManager
on_transition m handler = record m { handlers = m.handlers ++ handler ∷ [] }

clear_all : SessionManager → Map SessionInfo → SessionManager
clear_all m [] = m
clear_all m ((node_id, s) ∷ rest) = clear_all (clear_timers m node_id) rest

pub dispose : SessionManager → SessionManager
unfolding clear_all clear_timers
dispose m = record (clear_all m m.sessions) { sessions = []; handlers = [] }

pub record SessionManagerSnapshot : Type 0 where
  pub version : ℕ
  pub sessions : List SessionInfo
  pub captured_at : ℕ

pub to_snapshot : SessionManager → ℕ → SessionManagerSnapshot
to_snapshot m now = record {
  version = 1;
  sessions = keep (λ s. not (is_disconnected s.state)) (values m.sessions);
  captured_at = now;
}

restored : Map SessionInfo → List SessionInfo → Map SessionInfo
restored sessions [] = sessions
restored sessions (s ∷ rest) = restored (insert s.node_id s sessions) rest

-- `schema` is the check of the zod schema.
pub from_snapshot :
    (SessionManagerSnapshot → Bool)
    → SessionManager
    → SessionManagerSnapshot
    → Outcome SessionManager
unfolding restored dispose
from_snapshot schema m snapshot =
    if schema snapshot
    then ok (record (dispose m) { sessions = restored [] snapshot.sessions })
    else err invalid_snapshot

-- A due timer calls `handleEvent`.
pub fire_idle :
    SessionManager → String → ℕ → Outcome (SessionManager × TransitionResult × List Notice)
unfolding handle_event
fire_idle m node_id now = handle_event m node_id now idle_timeout

pub fire_suspend :
    SessionManager → String → ℕ → Outcome (SessionManager × TransitionResult × List Notice)
unfolding handle_event
fire_suspend m node_id now = handle_event m node_id now suspend_timeout
