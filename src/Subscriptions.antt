-- ===== src/Subscriptions.antt =====
-- Tickets and memberships: src/modules/subscriptions.
pub mod Model
pub mod Entitlement
pub mod Repository
pub mod Service
pub mod Sessions
