-- ===== src/Wallet.antt =====
-- The wallet context: src/modules/wallet.
pub mod Account
pub mod Repository
