-- ===== src/Shared/Columns.antt =====
-- Amounts in the columns `@db.Decimal(38, 18)` of prisma/schema.prisma: what is written, and what
-- is read back.
use wallet_conversion_engine.Prelude.{ℕ, ◌^◌, ◌<◌, ◌≡◌, arith}
use wallet_conversion_engine.Shared.Result.{ok}
use wallet_conversion_engine.Shared.Decimal.{IsDecimal, Fits-mono}
use wallet_conversion_engine.Shared.Asset.{Asset}
use wallet_conversion_engine.Shared.Money
use wallet_conversion_engine.Shared.Money.{Money, IsMoney, units_of}
use wallet_conversion_engine.Shared.Money.Laws.{of_decimal_lem}
use wallet_conversion_engine.Shared.Platform.{Platform}

module _ {D : Type 0} (p : Platform D) where
  -- `amount.toString()::numeric`
  abbrev pub numeric : Money D → ℕ
  numeric m = p.decimal.to_numeric m.amount m.asset.scale

module _ {D : Type 0} (p : Platform D) (laws : IsDecimal p.decimal) where
  pub numeric_lem :
      {asset : Asset} (m : Money D) → IsMoney p.decimal asset m → numeric p m ≡ units_of p.decimal m
  numeric_lem {asset} m h =
      laws.to_numeric-eq-units m.asset.scale m.amount (rw h.of_asset h.storable)
        (rw h.of_asset h.fits)

  -- An amount that was written is read back as it was.
  pub of_decimal-numeric :
      {asset : Asset} (m : Money D)
      → IsMoney p.decimal asset m
      → units_of p.decimal m < 10 ^ 40
      → Money.of_decimal p.decimal (p.decimal.of_numeric (numeric p m)) asset ≡ ok m
  of_decimal-numeric {asset} m h bound =
      let value : p.decimal.of_numeric (units_of p.decimal m) ≡ m.amount =
        laws.eq_of_units _ _ (laws.of_numeric-Fits (units_of p.decimal m) bound)
          (Fits-mono 18 h.storable h.fits) (laws.units-of_numeric (units_of p.decimal m) bound) in
      rw (numeric_lem m h, value, of_decimal_lem p.decimal laws {asset = asset} m.amount h.fits)
        (ground arith)
