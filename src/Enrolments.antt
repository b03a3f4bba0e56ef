-- ===== src/Enrolments.antt =====
-- Enrolments in courses: src/modules/enrolments.
pub mod Model
pub mod Repository
pub mod Service
pub mod Capacity
pub mod Frames
