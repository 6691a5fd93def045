-- ===== src/Shared.antt =====
-- The shared kernel: the Merkle service, the circuit breaker, the rate limiter and the event
-- publisher.
pub mod Merkle
pub mod Breaker
pub mod Limiter
pub mod Publisher
pub mod Payments
pub mod Sanitizer
mod GateTests
mod Tests
