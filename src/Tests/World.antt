-- ===== src/Tests/World.antt =====
-- A platform, a wallet, a quote and a conversion at which the theorems are applied.
use wallet_conversion_engine.Prelude.{ℕ, ◌*◌, ◌^◌, ◌≡◌, refl, true, none, some, [], ◌∷◌, arith}
use wallet_conversion_engine.Shared.Result.{ok}
use wallet_conversion_engine.Shared.Text.{trim}
use wallet_conversion_engine.Shared.Table.{string_eq, pair_eq, find}
use wallet_conversion_engine.Shared.Asset
use wallet_conversion_engine.Shared.Asset.{Asset}
use wallet_conversion_engine.Shared.Identifiers.{identifier_of}
use wallet_conversion_engine.Shared.Money.{Money, IsMoney}
use wallet_conversion_engine.Shared.Money.Convert.{IsRate}
use wallet_conversion_engine.Shared.Platform.{Platform}
use wallet_conversion_engine.Wallet.Account.{WalletAccount}
use wallet_conversion_engine.Wallet.Account.Laws.{IsValid}
use wallet_conversion_engine.Wallet.Repository as Wallets
use wallet_conversion_engine.Wallet.Repository.Refinement as WalletLaws
use wallet_conversion_engine.Pricing.ExchangeRate.{ExchangeRate}
use wallet_conversion_engine.Pricing.Quote.{Quote, active}
use wallet_conversion_engine.Pricing.Repository as Quotes
use wallet_conversion_engine.Pricing.Repository.Refinement as QuoteLaws
use wallet_conversion_engine.Conversion.Aggregate.{Conversion, created}
use wallet_conversion_engine.Conversion.Database.{Database}
use wallet_conversion_engine.Tests.Decimal.{Amount, units, sample, Fits-units}

abbrev pub usdt : Asset
usdt = record { code = "USDT"; scale = 6 }

abbrev pub btc : Asset
btc = record { code = "BTC"; scale = 8 }

abbrev pub platform : Platform Amount
platform = record {
  decimal = sample;
  to_upper_case = λ text. text;
  registry = usdt ∷ btc ∷ [];
  to_iso = λ now. "2026-01-01T00:00:00Z";
  is_date = λ text. true;
  sha256 = λ text. text;
}

-- In the last places of the assets.
abbrev pub usdt_of : ℕ → Money Amount
usdt_of k = record { amount = units (k * 10 ^ 12); asset = usdt }

abbrev pub btc_of : ℕ → Money Amount
btc_of k = record { amount = units (k * 10 ^ 10); asset = btc }

pub usdt_of-IsMoney : (k : ℕ) → IsMoney sample usdt (usdt_of k)
usdt_of-IsMoney k = record {
  of_asset = refl;
  fits = Fits-units k 6 (omega arith);
  storable = omega arith;
}

pub btc_of-IsMoney : (k : ℕ) → IsMoney sample btc (btc_of k)
btc_of-IsMoney k = record {
  of_asset = refl;
  fits = Fits-units k 8 (omega arith);
  storable = omega arith;
}

pub usdt_registered : Asset.of (λ text. text) "USDT" (usdt ∷ btc ∷ []) ≡ ok usdt
unfolding Asset.of Asset.normalize trim find
usdt_registered = refl

pub btc_registered : Asset.of (λ text. text) "BTC" (usdt ∷ btc ∷ []) ≡ ok btc
unfolding Asset.of Asset.normalize trim find
btc_registered = refl

abbrev pub wallet : WalletAccount Amount
wallet = record {
  id = "wallet-1";
  user_id = "user-1";
  asset = usdt;
  balance = usdt_of 5000000;
  available = usdt_of 3000000;
  reserved = usdt_of 2000000;
}

pub wallet-IsValid : IsValid sample wallet
wallet-IsValid = record {
  balance_money = usdt_of-IsMoney 5000000;
  available_money = usdt_of-IsMoney 3000000;
  reserved_money = usdt_of-IsMoney 2000000;
  composed = omega arith;
  bounded = omega arith;
}

pub wallet-IsStorable : WalletLaws.IsStorable platform wallet
unfolding identifier_of trim
wallet-IsStorable = record {
  valid = wallet-IsValid;
  user = refl;
  registered = usdt_registered;
  named = refl;
  in_column = omega arith;
}

-- 0.00001 BTC for 1 USDT
abbrev pub rate : ExchangeRate Amount
rate = record { source_asset = usdt; target_asset = btc; rate = units (10 ^ 13) }

pub price-IsRate : IsRate sample 18 (units (10 ^ 13))
price-IsRate = record {
  fits = Fits-units (10 ^ 13) 18 (omega arith);
  storable = omega arith;
  positive = omega arith;
}

abbrev pub quote : Quote Amount
quote = record {
  id = "quote-1";
  user_id = "user-1";
  source_amount = usdt_of 1000000;
  target_amount = btc_of 1000;
  rate = rate;
  created_at = 1000;
  expires_at = 21000;
  status = active;
  accepted_at = none;
}

pub quote-IsStorable : QuoteLaws.IsStorable platform quote
unfolding identifier_of trim
quote-IsStorable = record {
  id_valid = refl;
  user_valid = refl;
  source_registered = usdt_registered;
  target_registered = btc_registered;
  source_money = usdt_of-IsMoney 1000000;
  target_money = btc_of-IsMoney 1000;
  rate_source = refl;
  rate_target = refl;
  rate_valid = price-IsRate;
  distinct = cc;
  source_positive = omega arith;
  target_positive = omega arith;
  source_in_column = omega arith;
  target_in_column = omega arith;
  rate_in_column = omega arith;
  lifecycle = refl;
  lasts = omega arith;
}

abbrev pub conversion : Conversion Amount
conversion = record {
  id = "conversion-1";
  quote_id = "quote-1";
  user_id = "user-1";
  source_amount = usdt_of 1000000;
  target_amount = btc_of 1000;
  status = created;
  exchange_execution_id = none;
  created_at = 2000;
  completed_at = none;
  failure_reason = none;
}

-- One wallet and one quote are stored.
abbrev pub database : Database
database = record {
  quotes = Quotes.row_of platform quote ∷ [];
  wallets = Wallets.row_of platform wallet ∷ [];
  conversions = [];
  outbox = [];
  idempotency = [];
  processed = [];
}

pub wallet_stored :
    find Wallets.wallet_key ("user-1", "USDT") (Wallets.row_of platform wallet ∷ [])
    ≡ some (Wallets.row_of platform wallet)
unfolding find Wallets.row_of
wallet_stored = refl

pub quote_stored :
    find Quotes.quote_key "quote-1" (Quotes.row_of platform quote ∷ [])
    ≡ some (Quotes.row_of platform quote)
unfolding find Quotes.row_of
quote_stored = refl
