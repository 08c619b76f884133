-- ===== src/Shared/Money/Convert.antt =====
-- `convert` of shared/domain/money.ts, in units.
use native.Mathlib.Nat.{
  pow-suc, pow-zero, add-zero, mul_assoc, div-mul-le_self, lt-div-mul-add, one-le-pow,
}
use wallet_conversion_engine.Prelude.{
  ap, ◌∙◌, ℕ, zero, suc, ◌+◌, ◌-◌, ◌*◌, ◌/◌, ◌^◌, ◌≤◌, ◌<◌, ◌≡◌, refl, false, arith,
}
use wallet_conversion_engine.Shared.Result.{ok}
use wallet_conversion_engine.Shared.Decimal.{DecimalLib, IsDecimal, Fits}
use wallet_conversion_engine.Shared.Asset.{Asset}
use wallet_conversion_engine.Shared.Money.{Money, convert, is_bad_rate, IsMoney, units_of}

pub pow-add : (b n k : ℕ) → b ^ (n + k) ≡ b ^ n * b ^ k
pow-add b n zero = simp (add-zero, pow-zero) (omega arith)
pow-add b n (suc k) =
    ap (λ j. b ^ j) (omega arith) ∙ pow-suc b (n + k) ∙ simp (pow-add b n k, pow-suc, mul_assoc)

-- A number cut down to a multiple of `p`, in a coarser unit.
cut_bounds :
    (x p q : ℕ) → 0 < p → 0 < q → (x / (q * p) * q * p ≤ x) × (x < (x / (q * p) * q + q) * p)
cut_bounds x p q hp hq =
    let below : x / (q * p) * (q * p) ≤ x = div-mul-le_self x (q * p) in
    let above : x < x / (q * p) * (q * p) + q * p = lt-div-mul-add (grind arith) in
    (omega arith, omega arith)

cut_small : (x p q : ℕ) → x < q * p → x / (q * p) * q ≡ 0
cut_small x p q h = let gone : x / (q * p) ≡ 0 = grind arith in rw gone (omega arith)

-- A rate that `ExchangeRate.of` accepts.
pub record IsRate {D : Type 0} (lib : DecimalLib D) (places : ℕ) (rate : D) : Type 0 where
  pub fits : Fits lib places rate
  pub storable : places ≤ 18
  pub positive : 0 < lib.units rate

module _ {D : Type 0} (lib : DecimalLib D) (laws : IsDecimal lib) where
  pub is_bad_rate_lem :
      (places : ℕ) (rate : D) → IsRate lib places rate → is_bad_rate lib rate ≡ false
  unfolding is_bad_rate
  is_bad_rate_lem places rate h = ground (arith, laws.is_zero-eq-== places rate h.storable h.fits)

  module _ {asset : Asset} (m : Money D) (hm : IsMoney lib asset m) (places : ℕ) (rate : D)
      (hr : IsRate lib places rate) (target : Asset) (target_storable : target.scale ≤ 18)
      (precise : units_of lib m * lib.units rate < 10 ^ (76 - (asset.scale + places))) where
    pub convert_lem :
        (c : Money D) × (convert lib m rate target ≡ ok c)
        × IsMoney lib target c
        × (units_of lib c
            ≡ units_of lib m * lib.units rate / 10 ^ (36 - target.scale) * 10 ^ (18 - target.scale))
    unfolding convert
    convert_lem =
        let finite =
          laws.is_finite-times asset.scale places m.amount rate hm.storable hr.storable hm.fits
            hr.fits precise in
        let positive =
          laws.is_negative-times asset.scale places m.amount rate hm.storable hr.storable hm.fits
            hr.fits in
        let exact =
          laws.fine_units-times asset.scale places m.amount rate hm.storable hr.storable hm.fits
            hr.fits precise in
        (
          record { amount = lib.round_down (lib.times m.amount rate) target.scale; asset = target },
          rw (is_bad_rate_lem places rate hr) refl,
          record {
            of_asset = refl;
            fits =
                laws.round_down-Fits target.scale (lib.times m.amount rate) target_storable finite
                  positive;
            storable = target_storable;
          },
          laws.units-round_down target.scale (lib.times m.amount rate) target_storable finite
              ∙ ap (λ x. x / 10 ^ (36 - target.scale) * 10 ^ (18 - target.scale)) exact,
        )

    split_places : 10 ^ (36 - target.scale) ≡ 10 ^ (18 - target.scale) * 10 ^ 18
    split_places = ap (λ j. 10 ^ j) (omega arith) ∙ pow-add 10 (18 - target.scale) 18

    -- An exact product below one last place of the target asset converts to nothing.
    pub convert_small :
        units_of lib m * lib.units rate < 10 ^ (18 - target.scale) * 10 ^ 18
        → (c : Money D) × (convert lib m rate target ≡ ok c)
          × IsMoney lib target c
          × (units_of lib c ≡ 0)
    convert_small small =
        let (c, e, valid, value) = convert_lem in
        (
          c,
          e,
          valid,
          value
              ∙ ap (λ j. units_of lib m * lib.units rate / j * 10 ^ (18 - target.scale))
                  split_places
              ∙ cut_small (units_of lib m * lib.units rate) (10 ^ 18) (10 ^ (18 - target.scale))
                  small,
        )

    -- Where the exact product of the amount and the rate has at most 40 significant digits, the
    -- converted amount does not exceed it, and falls short of it by less than one last place of the
    -- target asset. The amount and the rate have at most 18 places, as has the target asset.
    pub convert_rounds_down :
        (c : Money D) × (convert lib m rate target ≡ ok c)
        × IsMoney lib target c
        × (units_of lib c * 10 ^ 18 ≤ units_of lib m * lib.units rate)
        × (units_of lib m * lib.units rate < (units_of lib c + 10 ^ (18 - target.scale)) * 10 ^ 18)
    convert_rounds_down =
        let (c, e, valid, value) = convert_lem in
        let x : ℕ = units_of lib m * lib.units rate in
        let q : ℕ = 10 ^ (18 - target.scale) in
        let bounds : (x / (q * 10 ^ 18) * q * 10 ^ 18 ≤ x)
            × (x < (x / (q * 10 ^ 18) * q + q) * 10 ^ 18) =
          cut_bounds x (10 ^ 18) q (omega arith)
            (one-le-pow (18 - target.scale) 10 (omega arith)) in
        let value' : units_of lib c ≡ x / (q * 10 ^ 18) * q =
          value ∙ ap (λ j. x / j * q) split_places in
        (c, e, valid, rw value' bounds.0, rw value' bounds.1)
