-- ===== src/Pricing/Quote.antt =====
-- pricing/domain/quote.ts: a price that is held for a short time. Times are milliseconds; the
-- method `accept` returns the quote after it.
pub mod Laws
use wallet_conversion_engine.Prelude.{
  ℕ, zero, ◌+◌, ◌*◌, ◌≡◌, Bool, true, false, not, ◌&&◌, ◌||◌, Option, none, some, String, leb, ltb,
  ◌==◌, if◌then◌else◌,
}
use wallet_conversion_engine.Shared.Result.{
  Result, ok, err, ◌>>=◌, ◌>>◌, throw_if, invalid_quote, quote_expired, quote_already_accepted,
}
use wallet_conversion_engine.Shared.Decimal.{DecimalLib}
use wallet_conversion_engine.Shared.Asset.{
  Asset, NumberArgument, whole, not_whole, equals as same_asset,
}
use wallet_conversion_engine.Shared.Money
use wallet_conversion_engine.Shared.Money.{Money}
use wallet_conversion_engine.Pricing.ExchangeRate.{ExchangeRate}

pub data QuoteStatus : Type 0 where
  active accepted expired : QuoteStatus

pub record Quote (D : Type 0) : Type 0 where
  pub id : String
  pub user_id : String
  pub source_amount : Money D
  pub target_amount : Money D
  pub rate : ExchangeRate D
  pub created_at : ℕ
  pub expires_at : ℕ
  pub status : QuoteStatus
  pub accepted_at : Option ℕ

-- `QUOTE_TTL_SECONDS`
abbrev pub quote_ttl_seconds : ℕ
quote_ttl_seconds = 20

-- The three tests of the constructor on the status: it is derived, or does not fit `acceptedAt`.
abbrev pub bad_status : QuoteStatus → Option ℕ → Bool
bad_status expired _ = true
bad_status accepted none = true
bad_status active (some _) = true
bad_status accepted (some _) = false
bad_status active none = false

abbrev pub is_active : QuoteStatus → Bool
is_active active = true
is_active _ = false

-- `snapshot.status === 'EXPIRED' ? 'ACTIVE' : snapshot.status`
abbrev pub restored_status : QuoteStatus → QuoteStatus
restored_status expired = active
restored_status active = active
restored_status accepted = accepted

-- `params.ttlSeconds ?? QUOTE_TTL_SECONDS`
abbrev pub ttl_or_default : Option NumberArgument → NumberArgument
ttl_or_default none = whole quote_ttl_seconds
ttl_or_default (some ttl) = ttl

-- `!Number.isInteger(ttl) || ttl <= 0`
abbrev pub positive_ttl : NumberArgument → Result ℕ
positive_ttl not_whole = err invalid_quote
positive_ttl (whole ttl) = if ttl == 0 then err invalid_quote else ok ttl

module _ {D : Type 0} (lib : DecimalLib D) where
  -- The constructor.
  unfoldable pub construct : Quote D → Result (Quote D)
  unfolding same_asset
  construct q = do
    throw_if (bad_status q.status q.accepted_at) invalid_quote
    throw_if
        (not (same_asset q.source_amount.asset q.rate.source_asset)
          || not (same_asset q.target_amount.asset q.rate.target_asset))
        invalid_quote
    throw_if (Money.is_zero lib q.source_amount) invalid_quote
    throw_if (leb q.expires_at q.created_at) invalid_quote
    ok q

  -- `Quote.create`
  unfoldable pub create :
      String → String → Money D → ExchangeRate D → ℕ → Option NumberArgument → Result (Quote D)
  unfolding construct
  create id user_id source_amount rate created_at ttl_seconds = do
    ttl ← positive_ttl (ttl_or_default ttl_seconds)
    throw_if (not (same_asset source_amount.asset rate.source_asset)) invalid_quote
    throw_if (Money.is_zero lib source_amount) invalid_quote
    target_amount ← Money.convert lib source_amount rate.rate rate.target_asset
    throw_if (Money.is_zero lib target_amount) invalid_quote
    construct (record {
      id = id;
      user_id = user_id;
      source_amount = source_amount;
      target_amount = target_amount;
      rate = rate;
      created_at = created_at;
      expires_at = created_at + ttl * 1000;
      status = active;
      accepted_at = none;
    })

  unfoldable pub reconstitute : Quote D → Result (Quote D)
  unfolding construct
  reconstitute snapshot = construct (record snapshot { status = restored_status snapshot.status })

module _ {D : Type 0} where
  unfoldable pub is_expired : ℕ → Quote D → Bool
  is_expired now q = is_active q.status && ltb q.expires_at now

  unfoldable pub status_at : ℕ → Quote D → QuoteStatus
  unfolding is_expired
  status_at now q = elim q.status [
    | accepted ↦ accepted
    | _ ↦ if is_expired now q then expired else active
  ]

  accept_branch : QuoteStatus → ℕ → Quote D → Result (Quote D)
  unfolding is_expired
  accept_branch accepted now q = err quote_already_accepted
  accept_branch _ now q =
      if is_expired now q
      then err quote_expired
      else ok (record q { status = accepted; accepted_at = some now })

  unfoldable pub accept : ℕ → Quote D → Result (Quote D)
  unfolding accept_branch
  accept now q = accept_branch q.status now q
