-- ===== src/Negotiation.antt =====
-- The negotiation context: offers, the session aggregate with its state machine, the stateless
-- policies, one turn of the engine, and the application service that runs turns.
pub mod Offers
pub mod Valuation
pub mod Strategy
pub mod History
pub mod Policies
pub mod Guardrails
pub mod Session
pub mod Tables
pub mod Service
pub mod Concessions
pub mod Engine
mod Tests
mod ServiceTests
mod StrategyTests
