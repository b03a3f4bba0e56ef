-- ===== src/Waitlist.antt =====
-- src/modules/waitlist: the queue for a full course.
pub mod Model
