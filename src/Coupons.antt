-- ===== src/Coupons.antt =====
-- Discount coupons: src/modules/coupons.
pub mod Model
pub mod Repository
pub mod Service
