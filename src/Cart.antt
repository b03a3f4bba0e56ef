-- ===== src/Cart.antt =====
-- The shopping cart: src/modules/cart.
pub mod Model
pub mod Response
pub mod Repository
pub mod Service
