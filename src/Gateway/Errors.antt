-- ===== src/Gateway/Errors.antt =====
-- The errors of packages/errors/src/legacy.ts that the modelled parts of packages/gateway/src throw, with
-- the node that each names, and the ZodError of a snapshot that its schema refuses.
use templar.Prelude.{String}
use templar.Prelude.Results.{Result, ok, err}

pub data GatewayError : Type 0 where
  node_already_registered node_not_found agent_not_found : String → GatewayError
  invalid_snapshot : GatewayError

abbrev pub Outcome : Type 0 → Type 0
Outcome = Result GatewayError

-- What a call on an object leaves of it: one that throws changes nothing.
abbrev pub left : {A : Type 0} → A → Outcome A → A
left a (ok b) = b
left a (err e) = a
