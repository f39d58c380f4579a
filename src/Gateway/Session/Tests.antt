-- ===== src/Gateway/Session/Tests.antt =====
-- Runs of packages/gateway/src/sessions/session-manager.ts.
use templar.Prelude.{Bool, true, false, Option, none, List, [], ◌∷◌}
use templar.Gateway.SessionProtocol.{SessionIdentityContext, heartbeat, idle_timeout, disconnect}
use templar.Gateway.Session.{SessionManager, SessionManagerConfig, init}
use templar.Gateway.Session.Timers.{IsTimed, TimedAt}
use templar.Gateway.Session.Run.{Call, creates, handles, listens, run, session_run-IsTimed}

-- Contexts count as equal when both are absent.
abbrev same_context : Option SessionIdentityContext → Option SessionIdentityContext → Bool
same_context none none = true
same_context _ _ = false

abbrev config : SessionManagerConfig
config = record { session_timeout = 100; suspend_timeout = 1000 }

abbrev calls : List Call
calls =
    creates "u1" 0 "n" none
    ∷ listens 1
    ∷ handles "n" 100 idle_timeout
    ∷ handles "n" 150 heartbeat
    ∷ creates "u2" 160 "m" none
    ∷ handles "m" 170 disconnect
    ∷ []

session_run-IsTimed_example : TimedAt (run same_context (init config) calls) "n"
session_run-IsTimed_example = session_run-IsTimed same_context config calls "n"

abbrev online : SessionManager
online = run same_context (init config) (creates "u1" 0 "n" none ∷ [])

abbrev dozing : SessionManager
dozing =
    run same_context (init config) (creates "u1" 0 "n" none ∷ handles "n" 100 idle_timeout ∷ [])

online-IsTimed : IsTimed online
online-IsTimed n = session_run-IsTimed same_context config (creates "u1" 0 "n" none ∷ []) n

dozing-IsTimed : IsTimed dozing
dozing-IsTimed n =
    session_run-IsTimed same_context config
      (creates "u1" 0 "n" none ∷ handles "n" 100 idle_timeout ∷ []) n
