-- ===== src/Lib.antt =====
-- templar is a platform for agents: nodes that run agents connect to a gateway over web sockets,
-- messages of channels are queued and routed to them, and guards around the agents limit what they
-- spawn, run and whom they talk to. This library models the state that these parts keep, in memory,
-- and proves what each part promises to the others.
--
-- The parts, and where they are modelled:
-- - Prelude holds what all share: tests, lists over the native numbers (Lists), maps with text keys
--   in insertion order (Maps, for the JavaScript Map and packages/gateway/src/utils/immutable-map.ts),
--   with their keys (Domains), a stable insertion sort (Sort, for Array.prototype.sort), results of
--   calls that may throw (Results) and the operations of JavaScript's strings (Text).
-- - Gateway/Fifo: packages/gateway/src/queue/bounded-fifo.ts, the ring buffer; Bounded is the
--   bounded list that it implements, Rep the representation, Refine the refinement.
-- - Gateway/Buffer and Gateway/Lanes: packages/gateway/src/queue/message-buffer.ts, the priority
--   buffer of a node on top of the ring buffer, and packages/gateway/src/protocol/lanes.ts. Pending is
--   the abstract view, Order the sort of a drain, Holds the invariant, Refine the refinement.
-- - Gateway/RateLimiter: packages/gateway/src/utils/rate-limiter.ts, messages per connection.
-- - Gateway/Breaker: packages/gateway/src/circuit-breaker.ts, the breaker of a node.
-- - Gateway/Delivery: packages/gateway/src/delivery-tracker.ts, messages sent and not yet
--   acknowledged, with its snapshots.
-- - Gateway/SessionProtocol and Gateway/Session: packages/gateway/src/protocol/sessions.ts,
--   packages/gateway/src/sessions/state-machine.ts and session-manager.ts, the session of each node with
--   its timers.
-- - Gateway/Registry: packages/gateway/src/registry/node-registry.ts; Registry/Health is the sweep of
--   packages/gateway/src/registry/health-monitor.ts over it.
-- - Gateway/Conversations: packages/gateway/src/conversations/conversation-store.ts, which node a
--   conversation is bound to; Index is its reverse index, Bind and History the calls that keep it.
-- - Gateway/Keys: packages/gateway/src/protocol/conversations.ts, the key of a conversation; Parse reads
--   it back, RoundTrip and Throws say what the two promise.
-- - Gateway/Bindings: packages/gateway/src/binding-resolver.ts and protocol/bindings.ts, which agent a
--   message is for; Globs gives the meaning of the patterns, FirstMatch that of a list of bindings.
-- - Gateway/Router: packages/gateway/src/router.ts, from a message to the buffer of a node, over the
--   registry, the bindings and the conversation store; Meaning says
--   which node a message is meant for, WithScope is its `routeWithScope`.
-- - Gateway/Delegation: packages/gateway/src/delegation-manager.ts, tasks that one node hands to
--   another with fallbacks; Steps has `delegate`, Answers the other calls and its end, Gates the
--   breaker's gate and the time of a node, Cancel the count of delegations after a cancellation,
--   Progress, Left and Turns how often a call goes on over the fallbacks, History the sequences of
--   calls, Limits, Shrinks and Bounded the limits of the configuration.
-- - Gateway/Wiring: packages/gateway/src/gateway.ts, the handlers that compose all of these: Messages
--   has those of lane messages, Steps the sequences of calls, Wired, Run and Reach the agreement of the
--   parts, Routes what follows for messages, Hazards where the parts come apart.
-- - Hooks: packages/hooks/src/registry.ts, the handlers of events; Search is its binary search, Sorted
--   the order of the handlers, Waterfall what interceptors do to data, Once the removal of entries
--   that fire one time.
-- - Pairing: packages/pairing/src/types.ts and pairing-guard.ts, the approval of peers by codes.
-- - ModelRouter/Breaker: packages/model-router/src/circuit-breaker.ts, the breaker of each provider.
-- - Engine/SpawnGuard: packages/engine/src/spawn-guard.ts, the caps on sub-agents.
-- - Approvals/Allowlist: packages/exec-approvals/src/allowlist.ts, approved commands.
--
-- An object is a record, a method a function from the state to the new state and its result, named
-- as the method is in snake case. A thrown error is the `none` of an Option or the `err` of a Result,
-- and the state is then the one before the call. Events and handlers are results of the call, or
-- parameters where a handler may change the state. `Date.now` and the injected clocks are arguments,
-- as are random identifiers and codes; times, sizes and limits are natural numbers, and a comparison
-- of a difference of times is written as one of sums. Histories are lists of calls; every loop runs
-- over a list or a count, but for the binary search of Hooks, whose fuel of one more than the length
-- of the list is proved to be enough.
--
-- The schemas of zod that check snapshots, `isDeepStrictEqual` of node:util and the extraction and
-- normalisation of codes in packages/pairing/src/code-generator.ts are parameters, about which nothing
-- is assumed but what a theorem names. A snapshot's object with node ids as keys is taken as a list
-- in the order of writing, which JavaScript keeps for ids that are not integers.
--
-- Not modelled: sockets, files, cryptography and the calls of the Nexus server; of
-- packages/gateway/src/gateway.ts the check of credentials, checkpoints, hot reload and requests for
-- delegation, of which a gateway without a delegation manager has none; the
-- updates of the store of delegations; the channels, protocol adapters and middleware.
pub mod Prelude
pub mod Gateway
pub mod Pairing
pub mod Engine
pub mod ModelRouter
pub mod Approvals
pub mod Hooks
