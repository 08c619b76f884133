-- ===== src/Pricing/CreateQuote.antt =====
-- pricing/application/create-quote.use-case.ts. The generated id and the time of the clock are
-- arguments.
pub mod Stored
use wallet_conversion_engine.Prelude.{ℕ, none, String}
use wallet_conversion_engine.Shared.Result.{Result, ok, err, ◌>>=◌, invalid_quote_request}
use wallet_conversion_engine.Shared.Asset
use wallet_conversion_engine.Shared.Identifiers.{user_id_of, quote_id_of}
use wallet_conversion_engine.Shared.Money
use wallet_conversion_engine.Shared.Platform.{Platform}
use wallet_conversion_engine.Shared.Exec.{Exec, continue}
use wallet_conversion_engine.Pricing.ExchangeRate.{get_rate}
use wallet_conversion_engine.Pricing.Quote
use wallet_conversion_engine.Pricing.Quote.{Quote}
use wallet_conversion_engine.Pricing.Repository.{QuoteTable, save}

pub record CreateQuoteCommand : Type 0 where
  pub user_id : String
  pub source_asset : String
  pub target_asset : String
  pub source_amount : String

-- `catch (error) { throw new InvalidQuoteRequestError(…) }`
abbrev pub as_request_error : {A : Type 0} → Result A → Result A
as_request_error (ok a) = ok a
as_request_error (err e) = err invalid_quote_request

module _ {D : Type 0} (p : Platform D) where
  -- The body of the `try`.
  unfoldable pub quote_of_command : CreateQuoteCommand → String → ℕ → Result (Quote D)
  quote_of_command command generated now = do
    user_id ← user_id_of command.user_id
    source_asset ← Asset.of p.to_upper_case command.source_asset p.registry
    target_asset ← Asset.of p.to_upper_case command.target_asset p.registry
    source_amount ← Money.of_text p.decimal command.source_amount source_asset
    rate ← get_rate p.decimal source_asset target_asset
    id ← quote_id_of generated
    Quote.create p.decimal id user_id source_amount rate now none

  -- `execute`: the quote is saved outside the `try`.
  unfoldable pub execute : CreateQuoteCommand → String → ℕ → Exec QuoteTable (Quote D)
  unfolding quote_of_command
  execute command generated now t =
      continue (as_request_error (quote_of_command command generated now))
        (λ q t'. continue (save p q t').0 (λ u t''. (ok q, t'')) (save p q t').1) t
