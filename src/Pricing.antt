-- ===== src/Pricing.antt =====
-- The pricing context: src/modules/pricing.
pub mod ExchangeRate
pub mod Quote
pub mod Repository
pub mod CreateQuote
