-- ===== src/Attendance.antt =====
-- src/modules/attendance: marking who came to a session.
pub mod Model
pub mod Marking
pub mod Records
pub mod Service
pub mod Projected
pub mod Approved
