-- ===== src/Points.antt =====
-- src/modules/points/.
pub mod Model
pub mod Repository
pub mod Service
