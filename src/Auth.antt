-- ===== src/Auth.antt =====
-- src/modules/auth: sessions, one-time codes and limits.
pub mod Model
pub mod Session
pub mod Access
