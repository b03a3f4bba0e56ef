-- ===== src/Leave.antt =====
-- Leave requests and makeup sessions: src/modules/leave.
pub mod Model
pub mod Repository
pub mod Requests
pub mod Rules
pub mod Service
pub mod Transactions
pub mod Updates
pub mod Approved
pub mod Kept
pub mod Actions
