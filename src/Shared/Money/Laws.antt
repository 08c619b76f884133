-- ===== src/Shared/Money/Laws.antt =====
-- The arithmetic of shared/domain/money.ts, in units.
use wallet_conversion_engine.Prelude.{
  ◌+◌, ◌-◌, ◌^◌, ◌≤◌, ◌<◌, ◌≡◌, ◌≢◌, refl, false, eq_iff, arith, ◌==◌, leb,
}
use wallet_conversion_engine.Shared.Result.{ok, err, negative_result, different_assets}
use wallet_conversion_engine.Shared.Decimal.{DecimalLib, IsDecimal, Fits, Fits-mono}
use wallet_conversion_engine.Shared.Asset.{Asset, equals as same_asset}
use wallet_conversion_engine.Shared.Money.{
  Money, zero_of, of_decimal, add, subtract, is_greater_than_or_equal, is_less_than, equals,
  assert_same_asset, IsMoney, units_of, is_zero,
}

-- Amounts of assets with different codes cannot be added, subtracted or compared, and are not equal.
pub different_assets_refused :
    {D : Type 0} (lib : DecimalLib D) (m n : Money D)
    → m.asset.code ≢ n.asset.code
    → (add lib m n ≡ err different_assets)
      × (subtract lib m n ≡ err different_assets)
      × (is_greater_than_or_equal lib m n ≡ err different_assets)
      × (is_less_than lib m n ≡ err different_assets)
      × (equals lib m n ≡ false)
unfolding add subtract is_greater_than_or_equal is_less_than equals same_asset
different_assets_refused lib m n h = ground (arith, eq_iff m.asset.code n.asset.code)

module _ {D : Type 0} (lib : DecimalLib D) (laws : IsDecimal lib) {asset : Asset} where
  assert_same :
      (m n : Money D)
      → IsMoney lib asset m
      → IsMoney lib asset n
      → assert_same_asset lib m n ≡ ok tt
  unfolding assert_same_asset
  assert_same m n hm hn = ground (arith, eq_iff m.asset.code n.asset.code)

  -- What `Money.of` accepts is an amount of its asset, with its value unchanged.
  pub of_decimal-IsMoney :
      {d : D} {m : Money D}
      → asset.scale ≤ 18
      → of_decimal lib d asset ≡ ok m
      → IsMoney lib asset m × (m.amount ≡ d)
  unfolding of_decimal
  of_decimal-IsMoney {d} {m} s h = ground arith

  pub of_decimal_lem :
      (d : D)
      → Fits lib asset.scale d
      → of_decimal lib d asset ≡ ok (record { amount = d; asset = asset })
  unfolding of_decimal
  of_decimal_lem d f = ground arith

  pub zero_of-IsMoney : asset.scale ≤ 18 → IsMoney lib asset (zero_of lib asset)
  unfolding zero_of
  zero_of-IsMoney s = record { of_asset = refl; fits = laws.nought-Fits asset.scale; storable = s }

  module _ (m n : Money D) (hm : IsMoney lib asset m) (hn : IsMoney lib asset n) where
    -- The sum of two amounts of one asset.
    pub add_lem :
        units_of lib m + units_of lib n < 10 ^ 40
        → (s : Money D) × (add lib m n ≡ ok s)
          × IsMoney lib asset s
          × (units_of lib s ≡ units_of lib m + units_of lib n)
    unfolding add
    add_lem bound = (
      record { amount = lib.plus m.amount n.amount; asset = m.asset },
      rw (assert_same m n hm hn) refl,
      record {
        of_asset = hm.of_asset;
        fits = laws.plus-Fits asset.scale m.amount n.amount hm.storable hm.fits hn.fits bound;
        storable = hm.storable;
      },
      laws.units-plus asset.scale m.amount n.amount hm.storable hm.fits hn.fits bound,
    )

    -- The difference, where it is not negative.
    pub subtract_lem :
        units_of lib n ≤ units_of lib m
        → units_of lib m < 10 ^ 40
        → (s : Money D) × (subtract lib m n ≡ ok s)
          × IsMoney lib asset s
          × (units_of lib s ≡ units_of lib m - units_of lib n)
    unfolding subtract
    subtract_lem le bound =
        let fits : Fits lib asset.scale (lib.minus m.amount n.amount) =
          laws.minus-Fits asset.scale m.amount n.amount hm.storable hm.fits hn.fits le bound in
        (
          record { amount = lib.minus m.amount n.amount; asset = m.asset },
          rw (assert_same m n hm hn, fits.nonnegative) refl,
          record { of_asset = hm.of_asset; fits = fits; storable = hm.storable },
          laws.units-minus asset.scale m.amount n.amount hm.storable hm.fits hn.fits le bound,
        )

    -- A negative difference throws.
    pub subtract_negative : units_of lib m < units_of lib n → subtract lib m n ≡ err negative_result
    unfolding subtract
    subtract_negative lt =
        rw
          (
            assert_same m n hm hn,
            laws.is_negative-minus asset.scale m.amount n.amount hm.storable hm.fits hn.fits lt,
          )
          refl

    pub is_greater_than_or_equal_lem :
        is_greater_than_or_equal lib m n ≡ ok (leb (units_of lib n) (units_of lib m))
    unfolding is_greater_than_or_equal
    is_greater_than_or_equal_lem =
        rw
          (
            assert_same m n hm hn,
            laws.greater-eq-leb asset.scale m.amount n.amount hm.storable hm.fits hn.fits,
          )
          refl

    pub equals_lem : equals lib m n ≡ (units_of lib m == units_of lib n)
    unfolding equals same_asset
    equals_lem = ground (
      arith,
      eq_iff m.asset.code n.asset.code,
      laws.equals-eq-== asset.scale m.amount n.amount hm.storable hm.fits hn.fits,
    )

    -- Amounts of one asset with the same units are the same amount.
    pub eq_of_units_of : units_of lib m ≡ units_of lib n → m ≡ n
    eq_of_units_of h =
        let amounts : m.amount ≡ n.amount =
          laws.eq_of_units m.amount n.amount (Fits-mono 18 hm.storable hm.fits)
            (Fits-mono 18 hn.storable hn.fits) h in
        ground arith

  pub is_zero_lem : (m : Money D) → IsMoney lib asset m → is_zero lib m ≡ (units_of lib m == 0)
  is_zero_lem m h = laws.is_zero-eq-== asset.scale m.amount h.storable h.fits
