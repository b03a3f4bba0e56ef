-- ===== src/Rewards.antt =====
-- src/modules/rewards: rewards paid for with points.
pub mod Model
pub mod Service
