-- ===== src/Pricing/ExchangeRate.antt =====
-- pricing/domain/exchange-rate.ts and pricing/infrastructure/fake-pricing.provider.ts.
use Prim.Native.String.{◌++◌}
use wallet_conversion_engine.Prelude.{Option, none, some, String, str_eq, if◌then◌else◌}
use wallet_conversion_engine.Shared.Result.{
  Result, ok, ◌>>=◌, ◌>>◌, throw_if, or_throw, same_rate_assets, bad_rate, unsupported_asset_pair,
  decimal_error,
}
use wallet_conversion_engine.Shared.Decimal.{DecimalLib}
use wallet_conversion_engine.Shared.Asset.{Asset, equals as same_asset}
use wallet_conversion_engine.Shared.Money.{is_bad_rate}

pub record ExchangeRate (D : Type 0) : Type 0 where
  pub source_asset : Asset
  pub target_asset : Asset
  pub rate : D

module _ {D : Type 0} (lib : DecimalLib D) where
  -- `ExchangeRate.of` after `new Decimal(rate)`
  unfoldable pub of_decimal : Asset → Asset → D → Result (ExchangeRate D)
  unfolding same_asset
  of_decimal source_asset target_asset rate = do
    throw_if (same_asset source_asset target_asset) same_rate_assets
    throw_if (is_bad_rate lib rate) bad_rate
    ok (record { source_asset = source_asset; target_asset = target_asset; rate = rate })

  -- `FakePricingProvider.RATES`, by `${sourceAsset.code}->${targetAsset.code}`
  unfoldable pub fixed_rate : String → Option String
  fixed_rate key =
      if str_eq key "USDT->BTC"
      then some "0.0000161"
      else if str_eq key "BTC->USDT"
      then some "62111.801242236"
      else none

  -- `getRate`
  unfoldable pub get_rate : Asset → Asset → Result (ExchangeRate D)
  unfolding fixed_rate of_decimal
  get_rate source_asset target_asset = do
    text ←
        or_throw (fixed_rate (source_asset.code ++ "->" ++ target_asset.code))
          unsupported_asset_pair
    rate ← or_throw (lib.parse text) decimal_error
    of_decimal source_asset target_asset rate
