-- ===== src/Trader.antt =====
-- src/trader.rs: the trader, which keeps the orders and the trades of each symbol.
pub mod Error
pub mod Data
pub mod Monad
pub mod Walk
pub mod Compute
pub mod Query
pub mod Create
pub mod Confirm
pub mod Event
pub mod Operation
pub mod Template
pub mod Placement
pub mod TradeTemplate
pub mod Keeps
pub mod Carried
pub mod Registry
pub mod Room
pub mod Standalone
pub mod Removed
pub mod Orderly
pub mod Long
pub mod Refused
mod Samples
mod Tests
mod TemplateTests
pub mod Handed
