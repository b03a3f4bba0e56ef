-- ===== src/Courses.antt =====
-- Courses and their seats: src/modules/courses.
pub mod Model
pub mod Seats
pub mod SeatQueries
