-- ===== src/Shared/Money.antt =====
-- shared/domain/money.ts: an amount with its asset. Each method that throws returns a `Result`.
pub mod Laws
pub mod Convert
use wallet_conversion_engine.Prelude.{
  ℕ, Bool, true, false, not, ◌&&◌, ◌||◌, String, ltb, if◌then◌else◌, ◌≤◌, ◌<◌, ◌≡◌,
}
use wallet_conversion_engine.Shared.Result.{
  Result, ok, err, ◌>>=◌, ◌>>◌, throw_if, or_throw, decimal_error, not_finite, negative_amount,
  scale_exceeded, different_assets, negative_result, bad_rate,
}
use wallet_conversion_engine.Shared.Decimal.{DecimalLib, Fits}
use wallet_conversion_engine.Shared.Asset.{Asset, equals as same_asset}

pub record Money (D : Type 0) : Type 0 where
  pub amount : D
  pub asset : Asset

module _ {D : Type 0} (lib : DecimalLib D) where
  -- `Money.zero`
  unfoldable pub zero_of : Asset → Money D
  zero_of asset = record { amount = lib.nought; asset = asset }

  -- `Money.of` after `new Decimal(amount)`
  unfoldable pub of_decimal : D → Asset → Result (Money D)
  of_decimal decimal asset = do
    throw_if (not (lib.is_finite decimal)) not_finite
    throw_if (lib.is_negative decimal) negative_amount
    throw_if (ltb asset.scale (lib.decimal_places decimal)) scale_exceeded
    ok (record { amount = decimal; asset = asset })

  -- `Money.of` on a text
  unfoldable pub of_text : String → Asset → Result (Money D)
  unfolding of_decimal
  of_text amount asset = do
    decimal ← or_throw (lib.parse amount) decimal_error
    of_decimal decimal asset

  abbrev pub is_zero : Money D → Bool
  is_zero m = lib.is_zero m.amount

  abbrev pub is_positive : Money D → Bool
  is_positive m = not (lib.is_zero m.amount)

  -- `assertSameAsset`
  unfoldable pub assert_same_asset : Money D → Money D → Result (Unit {0})
  unfolding same_asset
  assert_same_asset m other = throw_if (not (same_asset m.asset other.asset)) different_assets

  unfoldable pub add : Money D → Money D → Result (Money D)
  unfolding assert_same_asset
  add m other = do
    assert_same_asset m other
    ok (record { amount = lib.plus m.amount other.amount; asset = m.asset })

  unfoldable pub subtract : Money D → Money D → Result (Money D)
  unfolding assert_same_asset
  subtract m other = do
    assert_same_asset m other
    let result = lib.minus m.amount other.amount
    throw_if (lib.is_negative result) negative_result
    ok (record { amount = result; asset = m.asset })

  unfoldable pub is_greater_than_or_equal : Money D → Money D → Result Bool
  unfolding assert_same_asset
  is_greater_than_or_equal m other = do
    assert_same_asset m other
    ok (lib.greater_than_or_equal_to m.amount other.amount)

  unfoldable pub is_less_than : Money D → Money D → Result Bool
  unfolding assert_same_asset
  is_less_than m other = do assert_same_asset m other; ok (lib.less_than m.amount other.amount)

  unfoldable pub equals : Money D → Money D → Bool
  unfolding same_asset
  equals m other = same_asset m.asset other.asset && lib.equals m.amount other.amount

  -- A rate that `new Decimal(rate)` made.
  unfoldable pub is_bad_rate : D → Bool
  is_bad_rate rate = not (lib.is_finite rate) || lib.is_negative rate || lib.is_zero rate

  -- `convert`
  unfoldable pub convert : Money D → D → Asset → Result (Money D)
  unfolding is_bad_rate
  convert m rate target_asset = do
    throw_if (is_bad_rate rate) bad_rate
    let converted = lib.round_down (lib.times m.amount rate) target_asset.scale
    ok (record { amount = converted; asset = target_asset })

  -- `toString`
  unfoldable pub to_string : Money D → String
  to_string m = lib.to_fixed m.amount m.asset.scale

  -- An amount of `asset` that `Money.of` accepts, for an asset whose scale the columns can hold.
  pub record IsMoney (asset : Asset) (m : Money D) : Type 0 where
    pub of_asset : m.asset ≡ asset
    pub fits : Fits lib asset.scale m.amount
    pub storable : asset.scale ≤ 18

  abbrev pub units_of : Money D → ℕ
  units_of m = lib.units m.amount
