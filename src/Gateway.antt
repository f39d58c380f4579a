-- ===== src/Gateway.antt =====
-- packages/gateway/src: one module for each component of the gateway.
pub mod Registry
pub mod Fifo
pub mod Lanes
pub mod Keys
pub mod Bindings
pub mod Buffer
pub mod RateLimiter
pub mod Breaker
pub mod Delivery
pub mod Errors
pub mod SessionProtocol
pub mod Session
pub mod Conversations
pub mod Router
pub mod Delegation
pub mod Wiring
