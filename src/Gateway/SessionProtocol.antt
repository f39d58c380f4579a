-- ===== src/Gateway/SessionProtocol.antt =====
-- packages/gateway/src/protocol/sessions.ts and packages/gateway/src/sessions/state-machine.ts: the
-- states of a session, the transition table and what is kept of a session.
use templar.Prelude.{ℕ, Bool, true, false, Option, none, some, String}

pub data SessionState : Type 0 where
  connected idle suspended disconnected : SessionState

pub data SessionEvent : Type 0 where
  heartbeat message idle_timeout suspend_timeout disconnect reconnect : SessionEvent

-- SESSION_TRANSITIONS, with `none` for `null`.
unfoldable pub transitions : SessionState → SessionEvent → Option SessionState
transitions connected heartbeat = some connected
transitions connected message = some connected
transitions connected idle_timeout = some idle
transitions connected suspend_timeout = none
transitions connected disconnect = some disconnected
transitions connected reconnect = none
transitions idle heartbeat = some connected
transitions idle message = some connected
transitions idle idle_timeout = none
transitions idle suspend_timeout = some suspended
transitions idle disconnect = some disconnected
transitions idle reconnect = none
transitions suspended heartbeat = none
transitions suspended message = none
transitions suspended idle_timeout = none
transitions suspended suspend_timeout = none
transitions suspended disconnect = some disconnected
transitions suspended reconnect = some connected
transitions disconnected _ = none

pub record TransitionResult : Type 0 where
  pub valid : Bool
  pub state : SessionState
  pub previous_state : SessionState
  pub event : SessionEvent

result_of : SessionState → SessionEvent → Option SessionState → TransitionResult
result_of current event none = record {
  valid = false;
  state = current;
  previous_state = current;
  event = event;
}
result_of current event (some next) = record {
  valid = true;
  state = next;
  previous_state = current;
  event = event;
}

unfoldable pub transition : SessionState → SessionEvent → TransitionResult
unfolding result_of transitions
transition current event = result_of current event (transitions current event)

pub record ChannelIdentityConfig : Type 0 where
  pub name : Option String
  pub avatar : Option String
  pub bio : Option String
  pub system_prompt_prefix : Option String

pub record SessionIdentityContext : Type 0 where
  pub identity : Option ChannelIdentityConfig
  pub channel_type : Option String
  pub agent_id : Option String

pub record SessionInfo : Type 0 where
  pub session_id : String
  pub node_id : String
  pub state : SessionState
  pub connected_at : ℕ
  pub last_activity_at : ℕ
  pub reconnect_count : ℕ
  pub identity_context : Option SessionIdentityContext

abbrev pub is_reconnect : SessionEvent → Bool
is_reconnect reconnect = true
is_reconnect _ = false

abbrev pub is_disconnected : SessionState → Bool
is_disconnected disconnected = true
is_disconnected _ = false

abbrev pub same_state : SessionState → SessionState → Bool
same_state connected connected = true
same_state idle idle = true
same_state suspended suspended = true
same_state disconnected disconnected = true
same_state _ _ = false
