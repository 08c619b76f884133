-- ===== src/Conversion.antt =====
-- The conversion context: src/modules/conversion.
pub mod Aggregate
pub mod Repository
pub mod Outbox
pub mod Idempotency
pub mod Processed
pub mod Database
pub mod AcceptQuote
pub mod Matching
pub mod Process
pub mod FakeExchange
pub mod Messaging
pub mod Cleanup
