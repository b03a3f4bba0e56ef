-- ===== src/Messages.antt =====
-- src/modules/messages: conversations between a member and a coach.
pub mod Model
