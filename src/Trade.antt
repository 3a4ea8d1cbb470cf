-- ===== src/Trade.antt =====
-- src/trade.rs: a trade, which is an entry order and the two orders, exit and stoploss, that may end it.
pub mod State
pub mod Closer
pub mod Error
pub mod Data
pub mod Monad
pub mod Query
pub mod Compute
pub mod Confirm
pub mod Operation
pub mod Diagram
pub mod Keeps
pub mod Follows
pub mod Journey
pub mod Exclusive
pub mod Terms
pub mod Fill
pub mod Validate
pub mod Builder
pub mod Built
pub mod Samples
mod Tests
