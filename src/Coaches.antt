-- ===== src/Coaches.antt =====
-- src/modules/coaches: who coaches a course.
pub mod Model
pub mod Service
