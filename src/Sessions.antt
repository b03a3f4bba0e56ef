-- ===== src/Sessions.antt =====
-- Dated occurrences of a course: src/modules/sessions.
pub mod Model
