-- ===== src/Order.antt =====
-- src/order.rs: the life of an order.
pub mod State
pub mod Error
pub mod Data
pub mod Monad
pub mod Keeps
pub mod Query
pub mod Validate
pub mod Make
pub mod Trail
pub mod Handlers
pub mod Compute
pub mod Confirm
pub mod Operation
pub mod Diagram
pub mod Follows
pub mod Journey
pub mod Pending
pub mod Filled
pub mod Ends
pub mod Waiting
pub mod Finish
pub mod Samples
mod Tests
