-- ===== src/Products.antt =====
-- The shop's products: src/modules/products.
pub mod Model
pub mod Repository
pub mod Locks
pub mod Service
