-- ===== src/Conversion/AcceptQuote/Outcome.antt =====
-- `execute` of accept-quote.use-case.ts on a quote that nothing but the balance stands against.
use wallet_conversion_engine.Prelude.{ℕ, ◌+◌, ◌-◌, ◌≡◌, ◌≤◌, ◌<◌, refl, ap, ◌∙◌, none, List, String}
use wallet_conversion_engine.Shared.Result.{
  Result, ok, err, accept_aborted, insufficient_available_balance_code,
}
use wallet_conversion_engine.Shared.Text.{trim}
use wallet_conversion_engine.Shared.Table.{pair_eq, put}
use wallet_conversion_engine.Shared.Decimal.{IsDecimal}
use wallet_conversion_engine.Shared.Money.{units_of}
use wallet_conversion_engine.Shared.Platform.{Platform}
use wallet_conversion_engine.Shared.Exec.{Exec}
use wallet_conversion_engine.Wallet.Account.{WalletAccount}
use wallet_conversion_engine.Wallet.Account.Laws.{Becomes}
use wallet_conversion_engine.Wallet.Repository as Wallets
use wallet_conversion_engine.Wallet.Repository.{wallet_key}
use wallet_conversion_engine.Pricing.Quote.{Quote}
use wallet_conversion_engine.Conversion.Idempotency.{IdempotencyLookup}
use wallet_conversion_engine.Conversion.Database.{Database, IsTransaction, settle}
use wallet_conversion_engine.Conversion.AcceptQuote.{
  AcceptQuoteCommand, AcceptQuoteResult, created_result, error_result, failure, request_failure,
  Attempt, respond, body_of, work, attempt_of, execute_checked, execute,
}
use wallet_conversion_engine.Conversion.AcceptQuote.Atomicity.{execute_attempt_lem}
use wallet_conversion_engine.Conversion.AcceptQuote.Acceptable.{Acceptable, started_conversion}
use wallet_conversion_engine.Conversion.AcceptQuote.Success.{
  after_acceptance, work_accepts, work_insufficient,
}

module _ {D : Type 0} (p : Platform D) (laws : IsDecimal p.decimal)
    (transaction : Exec Database AcceptQuoteResult → Exec Database AcceptQuoteResult)
    (t : IsTransaction transaction) (command : AcceptQuoteCommand) (conversion_id event_id : String)
    (now : ℕ) (polls : List IdempotencyLookup) (db : Database)
    (passes : request_failure (trim command.quote_id) (trim command.idempotency_key) ≡ none)
    (q : Quote D) (w : WalletAccount D)
    (h : Acceptable p (attempt_of p command conversion_id event_id now) db q w) where
  abbrev attempt : Attempt
  attempt = attempt_of p command conversion_id event_id now

  -- What the request makes of what the transaction's work returns.
  abbrev answer : Result AcceptQuoteResult × Database → Result AcceptQuoteResult × Database
  answer o = (respond attempt.request_hash polls (settle db o).0, (settle db o).1)

  execute_lem :
      execute p transaction command conversion_id event_id now polls db ≡ answer (work p attempt db)
  unfolding execute execute_checked
  execute_lem = rw passes (execute_attempt_lem p transaction t attempt polls db)

  -- A request that passes the tests before the transaction, for a stored quote that is active and
  -- not expired, with a new key, new ids and a wallet of the quote's user and source asset that
  -- covers it, is answered with the created conversion. The database afterwards differs in exactly
  -- these rows: the quote is accepted at this time, the wallet has the source amount moved from
  -- available to reserved, the conversion is FUNDS_RESERVED and bound to the event, the outbox holds
  -- the event, not yet published, and the key holds the response.
  pub execute_accepts :
      units_of p.decimal q.source_amount ≤ units_of p.decimal w.available
      → (w' : WalletAccount D) × Becomes p.decimal w
          (units_of p.decimal w.balance)
          (units_of p.decimal w.available - units_of p.decimal q.source_amount)
          (units_of p.decimal w.reserved + units_of p.decimal q.source_amount)
          w'
        × (execute p transaction command conversion_id event_id now polls db ≡ (
          ok (created_result (body_of p q (started_conversion p attempt q))),
          after_acceptance p laws attempt q db w h
              (put wallet_key (Wallets.row_of p w') db.wallets),
        ))
  execute_accepts covered =
      let (w', becomes, e) = work_accepts p laws attempt q db w h covered in
      (w', becomes, execute_lem ∙ ap answer e)

  -- Such a request where the wallet has less available than the quote's source amount is answered
  -- with 409 and INSUFFICIENT_AVAILABLE_BALANCE, and nothing at all is written: the quote stays
  -- open and the key free.
  pub execute_insufficient :
      units_of p.decimal w.available < units_of p.decimal q.source_amount
      → execute p transaction command conversion_id event_id now polls db
        ≡ (ok (error_result (failure 409 insufficient_available_balance_code)), db)
  execute_insufficient short =
      execute_lem ∙ settled (work p attempt db) (work_insufficient p laws attempt q db w h short)
    where
      settled :
          (o : Result AcceptQuoteResult × Database)
          → o.0 ≡ err (accept_aborted (failure 409 insufficient_available_balance_code))
          → answer o ≡ (ok (error_result (failure 409 insufficient_available_balance_code)), db)
      settled (ok r, after) e = cc
      settled (err x, after) e =
          let same : x ≡ accept_aborted (failure 409 insufficient_available_balance_code) = cc in
          rw same refl
