-- ===== src/Tests/Quotes.antt =====
-- The theorems on money, rates and quotes, applied to a quote of 1 USDT at 0.00001 BTC.
use wallet_conversion_engine.Prelude.{
  ◌+◌, ◌*◌, ◌^◌, ◌≤◌, ◌<◌, ◌≡◌, ◌↔◌, refl, none, some, [], ◌∷◌, arith,
}
use wallet_conversion_engine.Shared.Result.{ok}
use wallet_conversion_engine.Shared.Table.{string_eq, find, put}
use wallet_conversion_engine.Shared.Text.{trim}
use wallet_conversion_engine.Shared.Identifiers.{identifier_of}
use wallet_conversion_engine.Shared.Money.{Money, IsMoney, convert, units_of}
use wallet_conversion_engine.Shared.Money.Convert.{convert_rounds_down}
use wallet_conversion_engine.Pricing.Quote.{Quote, active, accepted, accept}
use wallet_conversion_engine.Pricing.Quote.Laws.{accept_iff}
use wallet_conversion_engine.Pricing.Repository as Quotes
use wallet_conversion_engine.Pricing.Repository.{quote_key, QuoteTable, find_by_id}
use wallet_conversion_engine.Pricing.Repository.Refinement.{
  find_by_id-save, accept-IsStorable, save_accepted_refines,
}
use wallet_conversion_engine.Pricing.ExchangeRate.{fixed_rate}
use wallet_conversion_engine.Pricing.CreateQuote.{CreateQuoteCommand, execute}
use wallet_conversion_engine.Pricing.CreateQuote.Stored.{IsAnswerable, Offered, execute-Offered}
use wallet_conversion_engine.Tests.Decimal.{Amount, units, sample, sample-IsDecimal, Fits-units}
use wallet_conversion_engine.Tests.World.{
  usdt, usdt_registered, btc_registered, btc, usdt_of, usdt_of-IsMoney, platform, price-IsRate,
  quote, quote-IsStorable,
}

convert_rounds_down_example :
    (c : Money Amount) × (convert sample (usdt_of 1000000) (units (10 ^ 13)) btc ≡ ok c)
    × IsMoney sample btc c
    × (units_of sample c * 10 ^ 18 ≤ 10 ^ 31)
    × (10 ^ 31 < (units_of sample c + 10 ^ 10) * 10 ^ 18)
convert_rounds_down_example =
    convert_rounds_down sample sample-IsDecimal (usdt_of 1000000) (usdt_of-IsMoney 1000000) 18
      (units (10 ^ 13)) price-IsRate btc (omega arith) (omega arith)

abbrev accepted_quote : Quote Amount
accepted_quote = record quote { status = accepted; accepted_at = some 2000 }

accept_iff_example :
    (accept 2000 quote ≡ ok accepted_quote) ↔ ((quote.status ≡ active) × (2000 ≤ 21000))
accept_iff_example = accept_iff 2000 quote cc

find_by_id-save_example :
    (Quotes.save platform quote [] ≡ (ok tt, put quote_key (Quotes.row_of platform quote) []))
    × (Quotes.find_by_id platform "quote-1" (put quote_key (Quotes.row_of platform quote) [])
        ≡ (ok (some quote), put quote_key (Quotes.row_of platform quote) []))
unfolding find
find_by_id-save_example = find_by_id-save platform sample-IsDecimal quote quote-IsStorable [] refl

abbrev table : QuoteTable
table = Quotes.row_of platform quote ∷ []

accepted_lem : accept 2000 quote ≡ ok accepted_quote
unfolding accept
accepted_lem = refl

abbrev taken_table : QuoteTable
taken_table = Quotes.row_of platform accepted_quote ∷ []

taken : find quote_key accepted_quote.id taken_table ≡ some (Quotes.row_of platform accepted_quote)
unfolding find Quotes.row_of
taken = refl

-- The quote is read while it is active, and stored as accepted by then.
save_accepted_refines_example :
    Quotes.save_accepted platform accepted_quote 2000 taken_table ≡ (ok none, taken_table)
unfolding accept
save_accepted_refines_example =
    save_accepted_refines platform sample-IsDecimal 2000 quote accepted_quote accepted_quote
      taken_table (accept-IsStorable platform sample-IsDecimal 2000 quote quote-IsStorable) refl
      accepted_lem taken

-- 1 USDT at the fixed rate.
abbrev one_usdt : CreateQuoteCommand
one_usdt = record {
  user_id = "user-1";
  source_asset = "USDT";
  target_asset = "BTC";
  source_amount = "1";
}

one_usdt-IsAnswerable : IsAnswerable platform one_usdt "quote-1"
unfolding identifier_of trim fixed_rate
one_usdt-IsAnswerable = record {
  user_id = "user-1";
  source = usdt;
  target = btc;
  amount = units (10 ^ 18);
  price_text = "0.0000161";
  price = units 16100000000000;
  user_valid = refl;
  id_valid = refl;
  source_known = usdt_registered;
  target_known = btc_registered;
  source_registered = usdt_registered;
  target_registered = btc_registered;
  distinct = cc;
  source_storable = omega arith;
  target_storable = omega arith;
  amount_read = refl;
  amount_fits = Fits-units 1000000 6 (omega arith);
  positive = omega arith;
  in_column = omega arith;
  priced = refl;
  price_read = refl;
  price_valid = record {
    fits = Fits-units 16100000000000 18 (omega arith);
    storable = omega arith;
    positive = omega arith;
  };
  price_in_column = omega arith;
  precise = omega arith;
  small = omega arith;
  enough = omega arith;
}

execute-Offered_example :
    (q : Quote Amount) × (t' : QuoteTable) × (execute platform one_usdt "quote-1" 1000 []
      ≡ (ok q, t'))
    × Offered platform sample-IsDecimal one_usdt "quote-1" one_usdt-IsAnswerable 1000 q
    × (find_by_id platform "quote-1" t' ≡ (ok (some q), t'))
unfolding find
execute-Offered_example =
    execute-Offered platform sample-IsDecimal one_usdt "quote-1" one_usdt-IsAnswerable 1000 [] refl
