-- ===== src/Tests.antt =====
-- Instances of the parameters, and the theorems applied at concrete inputs.
pub mod Decimal
pub mod World
pub mod Wallets
pub mod Quotes
pub mod Conversions
pub mod Accepting
pub mod Processing
pub mod Exchange
pub mod Messaging
pub mod Settings
pub mod Replies
pub mod Recovery
