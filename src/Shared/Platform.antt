-- ===== src/Shared/Platform.antt =====
-- What the process runs on and does not implement itself, and the registry of assets as it stands
-- once the modules are loaded. Texts of dates and hashes are only passed on and compared.
use wallet_conversion_engine.Prelude.{ℕ, Bool, String}
use wallet_conversion_engine.Shared.Decimal.{DecimalLib}
use wallet_conversion_engine.Shared.Asset.{Registry}

pub record Platform (D : Type 0) : Type 0 where
  pub decimal : DecimalLib D
  pub to_upper_case : String → String
  pub registry : Registry
  -- `toISOString().replace(/\.000Z$/, 'Z')` of a time in milliseconds
  pub to_iso : ℕ → String
  -- `!Number.isNaN(new Date(text).getTime())`
  pub is_date : String → Bool
  -- `createHash('sha256').update(text).digest('hex')`
  pub sha256 : String → String
