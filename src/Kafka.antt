-- ===== src/Kafka.antt =====
-- src/kafka: the outbox's dispatcher, the event table, and the audit consumer.
pub mod Consumer
pub mod Events
pub mod Outbox
