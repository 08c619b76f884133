-- ===== src/Conversion/Messaging.antt =====
-- conversion/infrastructure/messaging: the connection to the broker, the publisher of the outbox and
-- the consumer of execution events.
pub mod Channel
pub mod Connection
pub mod Consumer
pub mod Publisher
pub mod Execution
