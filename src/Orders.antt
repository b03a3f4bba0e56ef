-- ===== src/Orders.antt =====
-- Orders: checkout, its price, its locks, and the refund. src/modules/orders.
pub mod Model
pub mod Refund
pub mod Fulfilment
pub mod Pricing
pub mod Repository
pub mod Locks
pub mod Idempotency
pub mod Responses
pub mod Request
pub mod Placing
pub mod Checkout
pub mod Status
pub mod Refusals
pub mod Changes
pub mod Frame
pub mod Sound
pub mod Replay
pub mod Twice
pub mod Effects
pub mod Preview
pub mod Atomic
