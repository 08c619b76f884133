-- ===== src/Pricing/Quote/Laws.antt =====
-- Creation, expiry and acceptance of quotes.
use wallet_conversion_engine.Prelude.{
  ◌∙◌, lt→leb, ℕ, zero, suc, ◌+◌, ◌-◌, ◌*◌, ◌^◌, ◌≤◌, ◌<◌, ◌≡◌, ◌≢◌, ◌↔◌, refl, true, false, none,
  some, String, arith, eq_iff, leb, ◌==◌,
}
use wallet_conversion_engine.Shared.Result.{
  ok, err, invalid_quote, quote_expired, quote_already_accepted,
}
use wallet_conversion_engine.Shared.Decimal.{DecimalLib, IsDecimal}
use wallet_conversion_engine.Shared.Asset.{whole, equals as same_asset}
use wallet_conversion_engine.Shared.Money
use wallet_conversion_engine.Shared.Money.{Money, IsMoney, units_of}
use wallet_conversion_engine.Shared.Money.Laws.{is_zero_lem}
use wallet_conversion_engine.Shared.Money.Convert.{IsRate, convert_rounds_down, convert_small}
use wallet_conversion_engine.Pricing.ExchangeRate.{ExchangeRate}
use wallet_conversion_engine.Pricing.Quote.{
  Quote, active, accepted, expired, construct, create, status_at, accept,
}

module _ {D : Type 0} where
  -- A quote is accepted exactly when it is active and not past its expiry, and the acceptance
  -- records the time.
  pub accept_iff :
      (now : ℕ) (q : Quote D)
      → q.status ≢ expired
      → (accept now q ≡ ok (record q { status = accepted; accepted_at = some now }))
        ↔ ((q.status ≡ active) × (now ≤ q.expires_at))
  unfolding accept
  accept_iff now q h = ground arith

  -- An accepted quote is never accepted again.
  pub accept_once :
      (now later : ℕ) (q q' : Quote D)
      → accept now q ≡ ok q'
      → (accept later q' ≡ err quote_already_accepted) × (status_at later q' ≡ accepted)
  unfolding accept status_at
  accept_once now later q q' h = ground arith

  -- Once a quote shows as expired it shows so for ever, and every attempt to accept it fails.
  pub expired_for_ever :
      (now later : ℕ) (q : Quote D)
      → now ≤ later
      → status_at now q ≡ expired
      → (status_at later q ≡ expired) × (accept later q ≡ err quote_expired)
  unfolding accept status_at
  expired_for_ever now later q le h = ground arith

-- A request that `create` turns into a quote: an amount and a rate that the libraries hold exactly.
pub record IsRequest {D : Type 0} (lib : DecimalLib D) (source_amount : Money D)
    (rate : ExchangeRate D) (places : ℕ) : Type 0 where
  pub source_money : IsMoney lib rate.source_asset source_amount
  pub rate_valid : IsRate lib places rate.rate
  pub target_storable : rate.target_asset.scale ≤ 18
  pub positive : 0 < units_of lib source_amount
  pub precise :
      units_of lib source_amount * lib.units rate.rate
      < 10 ^ (76 - (rate.source_asset.scale + places))

module _ {D : Type 0} (lib : DecimalLib D) (laws : IsDecimal lib) (source_amount : Money D)
    (rate : ExchangeRate D) (places : ℕ) (r : IsRequest lib source_amount rate places) where
  -- What a quote for the request promises: an active quote of the user for the amount at the rate, for the
  -- given time; its target amount is positive, is no more than the exact product, and falls short
  -- of it by less than one last place of the target asset.
  pub record IsOffer (id user_id : String) (created_at ttl : ℕ) (q : Quote D) : Type 0 where
    pub same_id : q.id ≡ id
    pub same_user : q.user_id ≡ user_id
    pub is_active : q.status ≡ active
    pub not_accepted : q.accepted_at ≡ none
    pub same_source : q.source_amount ≡ source_amount
    pub same_rate : q.rate ≡ rate
    pub same_created_at : q.created_at ≡ created_at
    pub expiry : q.expires_at ≡ created_at + ttl * 1000
    pub target_money : IsMoney lib rate.target_asset q.target_amount
    pub target_positive : 0 < units_of lib q.target_amount
    pub never_more :
        units_of lib q.target_amount * 10 ^ 18 ≤ units_of lib source_amount * lib.units rate.rate
    pub nearly_all :
        units_of lib source_amount * lib.units rate.rate
        < (units_of lib q.target_amount + 10 ^ (18 - rate.target_asset.scale)) * 10 ^ 18

  -- One last place of the target asset, as a product of units.
  abbrev pub one_place : ℕ
  one_place = 10 ^ (18 - rate.target_asset.scale) * 10 ^ 18

  source_matches : same_asset source_amount.asset rate.source_asset ≡ true
  unfolding same_asset
  source_matches =
      ground (arith, r.source_money, eq_iff source_amount.asset.code rate.source_asset.code)

  target_matches :
      (c : Money D) → IsMoney lib rate.target_asset c → same_asset c.asset rate.target_asset ≡ true
  unfolding same_asset
  target_matches c h = ground (arith, eq_iff c.asset.code rate.target_asset.code)

  source_positive : Money.is_zero lib source_amount ≡ false
  source_positive = is_zero_lem lib laws source_amount r.source_money ∙ (ground (arith, r.positive))

  -- A request whose exact product is at least one last place of the target asset gets an offer.
  pub create_lem :
      (id user_id : String) (created_at ttl : ℕ)
      → 0 < ttl
      → one_place ≤ units_of lib source_amount * lib.units rate.rate
      → (q : Quote D) × (create lib id user_id source_amount rate created_at (some (whole ttl))
          ≡ ok q)
        × IsOffer id user_id created_at ttl q
  unfolding create construct
  create_lem id user_id created_at ttl pos enough =
      let (c, e, money, below, above) =
        convert_rounds_down lib laws source_amount r.source_money places rate.rate r.rate_valid
          rate.target_asset r.target_storable r.precise in
      let c_pos : 0 < units_of lib c = omega arith in
      let c_nonzero : Money.is_zero lib c ≡ false = is_zero_lem lib laws c money ∙ (ground arith) in
      let ttl_valid : (ttl == 0) ≡ false = ground arith in
      let later : leb (created_at + ttl * 1000) created_at ≡ false = lt→leb _ _ (omega arith) in
      (
        record {
          id = id;
          user_id = user_id;
          source_amount = source_amount;
          target_amount = c;
          rate = rate;
          created_at = created_at;
          expires_at = created_at + ttl * 1000;
          status = active;
          accepted_at = none;
        },
        rw (ttl_valid, source_matches, source_positive, e, c_nonzero, target_matches c money, later)
            refl,
        record {
          same_id = refl;
          same_user = refl;
          is_active = refl;
          not_accepted = refl;
          same_source = refl;
          same_rate = refl;
          same_created_at = refl;
          expiry = refl;
          target_money = money;
          target_positive = c_pos;
          never_more = below;
          nearly_all = above;
        },
      )

  -- A request whose exact product is below one last place of the target asset is refused.
  pub create_too_small :
      (id user_id : String) (created_at ttl : ℕ)
      → units_of lib source_amount * lib.units rate.rate < one_place
      → create lib id user_id source_amount rate created_at (some (whole ttl)) ≡ err invalid_quote
  unfolding create
  create_too_small id user_id created_at zero small = refl
  create_too_small id user_id created_at (suc ttl) small =
      let (c, e, money, none_left) =
        convert_small lib laws source_amount r.source_money places rate.rate r.rate_valid
          rate.target_asset r.target_storable r.precise small in
      let c_zero : Money.is_zero lib c ≡ true = is_zero_lem lib laws c money ∙ (ground arith) in
      let ttl_valid : (suc ttl == 0) ≡ false = ground arith in
      rw (ttl_valid, source_matches, source_positive, e, c_zero) refl
