-- ===== src/Settlement.antt =====
-- The settlement context: the escrow aggregate, the on-chain contract that it mirrors, the rows
-- that persist it and the application service that drives both.
pub mod Values
pub mod Escrow
pub mod Contract
pub mod Rows
pub mod Store
pub mod Service
pub mod Algorand
pub mod Mirror
mod Tests
mod ServiceTests
mod ChainTests
