-- ===== src/Tests/Accepting.antt =====
-- The theorems on the acceptance of a quote, applied to a database of one wallet and one quote.
use wallet_conversion_engine.Prelude.{◌*◌, ◌^◌, ◌≡◌, refl, true, false, none, some, [], ◌∷◌, arith}
use wallet_conversion_engine.Shared.Result.{
  ok, idempotency_key_reuse, insufficient_available_balance_code,
}
use wallet_conversion_engine.Shared.Text.{trim}
use wallet_conversion_engine.Shared.Table.{string_eq, pair_eq, find, put}
use wallet_conversion_engine.Shared.Identifiers.{identifier_of}
use wallet_conversion_engine.Wallet.Account.{WalletAccount}
use wallet_conversion_engine.Wallet.Account.Laws.{Becomes, IsValid}
use wallet_conversion_engine.Wallet.Repository as Wallets
use wallet_conversion_engine.Wallet.Repository.Refinement as WalletLaws
use wallet_conversion_engine.Conversion.Idempotency.{
  IdempotencyRow, StoredResponse, idempotency_key_of,
}
use wallet_conversion_engine.Conversion.Database.{Database, atomic, atomic-IsTransaction}
use wallet_conversion_engine.Conversion.Repository as Conversions
use wallet_conversion_engine.Conversion.AcceptQuote.{
  AcceptQuoteCommand, created_result, error_result, failure, accept_quote_scope, request_failure,
  body_of, attempt_of, Attempt, execute,
}
use wallet_conversion_engine.Conversion.AcceptQuote.Atomicity.{
  AllOrNothing, execute-AllOrNothing, execute_known,
}
use wallet_conversion_engine.Conversion.AcceptQuote.Acceptable.{Acceptable, started_conversion}
use wallet_conversion_engine.Conversion.AcceptQuote.Success.{after_acceptance}
use wallet_conversion_engine.Conversion.AcceptQuote.Outcome.{execute_accepts, execute_insufficient}
use wallet_conversion_engine.Shared.Sort.{sort_by, insert_by}
use wallet_conversion_engine.Shared.Distinct.{Distinct}
use wallet_conversion_engine.Config.Settings.{CleanupSettings}
use wallet_conversion_engine.Conversion.Cleanup.{
  cleanup_batch, delete_expired, delete_rows, selected, expired,
}
use wallet_conversion_engine.Conversion.Cleanup.Replay.{cleaned, execute-cleanup_batch}
use wallet_conversion_engine.Tests.Decimal.{Amount, sample, sample-IsDecimal}
use wallet_conversion_engine.Tests.World.{
  usdt_of, usdt_of-IsMoney, platform, wallet, wallet-IsStorable, wallet_stored, quote,
  quote-IsStorable, quote_stored, database, usdt_registered,
}

abbrev command : AcceptQuoteCommand
command = record { quote_id = " quote-1 "; idempotency_key = "key-1" }

abbrev attempt : Attempt
attempt = attempt_of platform command "conversion-1" "event-1" 2000

passes : request_failure (trim " quote-1 ") (trim "key-1") ≡ none
unfolding request_failure trim
passes = refl

acceptable : Acceptable platform attempt database quote wallet
unfolding identifier_of trim find Conversions.quote_free
acceptable = record {
  key_new = refl;
  names_quote = refl;
  quote_stored = quote_stored;
  quote_storable = quote-IsStorable;
  quote_active = refl;
  in_time = omega arith;
  wallet_stored = wallet_stored;
  wallet_storable = wallet-IsStorable;
  same_user = refl;
  same_asset = refl;
  conversion_id_valid = refl;
  conversion_new = refl;
  quote_unused = refl;
  event_id_valid = refl;
  event_new = refl;
}

execute_accepts_example :
    (w' : WalletAccount Amount) × Becomes sample wallet
      (5000000 * 10 ^ 12)
      (2000000 * 10 ^ 12)
      (3000000 * 10 ^ 12)
      w'
    × (execute platform atomic command "conversion-1" "event-1" 2000 [] database ≡ (
      ok (created_result (body_of platform quote (started_conversion platform attempt quote))),
      after_acceptance platform sample-IsDecimal attempt quote database wallet acceptable
          (put Wallets.wallet_key (Wallets.row_of platform w') database.wallets),
    ))
execute_accepts_example =
    execute_accepts platform sample-IsDecimal atomic atomic-IsTransaction command "conversion-1"
      "event-1" 2000 [] database passes quote wallet acceptable (omega arith)

execute-AllOrNothing_example :
    AllOrNothing platform atomic atomic-IsTransaction database
      (execute platform atomic command "conversion-1" "event-1" 2000 [] database)
execute-AllOrNothing_example =
    execute-AllOrNothing platform atomic atomic-IsTransaction command "conversion-1" "event-1" 2000
      [] database

-- A wallet with half a USDT available.
abbrev poor_wallet : WalletAccount Amount
poor_wallet = record wallet { balance = usdt_of 2500000; available = usdt_of 500000 }

poor_wallet-IsValid : IsValid sample poor_wallet
poor_wallet-IsValid = record {
  balance_money = usdt_of-IsMoney 2500000;
  available_money = usdt_of-IsMoney 500000;
  reserved_money = usdt_of-IsMoney 2000000;
  composed = omega arith;
  bounded = omega arith;
}

poor_wallet-IsStorable : WalletLaws.IsStorable platform poor_wallet
unfolding identifier_of trim
poor_wallet-IsStorable = record {
  valid = poor_wallet-IsValid;
  user = refl;
  registered = usdt_registered;
  named = refl;
  in_column = omega arith;
}

abbrev poor_database : Database
poor_database = record database { wallets = Wallets.row_of platform poor_wallet ∷ [] }

poor_acceptable : Acceptable platform attempt poor_database quote poor_wallet
unfolding identifier_of trim find Conversions.quote_free Wallets.row_of
poor_acceptable = record {
  key_new = refl;
  names_quote = refl;
  quote_stored = quote_stored;
  quote_storable = quote-IsStorable;
  quote_active = refl;
  in_time = omega arith;
  wallet_stored = refl;
  wallet_storable = poor_wallet-IsStorable;
  same_user = refl;
  same_asset = refl;
  conversion_id_valid = refl;
  conversion_new = refl;
  quote_unused = refl;
  event_id_valid = refl;
  event_new = refl;
}

execute_insufficient_example :
    execute platform atomic command "conversion-1" "event-1" 2000 [] poor_database
    ≡ (ok (error_result (failure 409 insufficient_available_balance_code)), poor_database)
execute_insufficient_example =
    execute_insufficient platform sample-IsDecimal atomic atomic-IsTransaction command
      "conversion-1" "event-1" 2000 [] poor_database passes quote poor_wallet poor_acceptable
      (omega arith)

-- The key answered another quote before.
abbrev old_response : StoredResponse
old_response = record {
  response_status = 201;
  response_body = body_of platform quote (started_conversion platform attempt quote);
  conversion_id = "conversion-0";
}

abbrev old_row : IdempotencyRow
old_row = record {
  scope = accept_quote_scope;
  idempotency_key = "key-1";
  request_hash = "quote-0";
  response = some old_response;
  created_at = 0;
}

abbrev known_database : Database
known_database = record database { idempotency = old_row ∷ [] }

old_row_stored : find idempotency_key_of "key-1" (old_row ∷ []) ≡ some old_row
unfolding find
old_row_stored = refl

execute_known_example :
    execute platform atomic command "conversion-1" "event-1" 2000 [] known_database
    ≡ (ok (error_result (failure 409 idempotency_key_reuse)), known_database)
unfolding trim
execute_known_example =
    execute_known platform atomic atomic-IsTransaction command "conversion-1" "event-1" 2000 []
      known_database old_row old_response passes old_row_stored refl

-- A day of retention, and a cleanup an hour after the answer.
abbrev retention : CleanupSettings
retention = record {
  enabled = true;
  retention_ms = 86400000;
  interval_ms = 3600000;
  batch_size = 1000;
}

one_row-Distinct : Distinct idempotency_key_of (old_row ∷ [])
unfolding Distinct
one_row-Distinct = (tt, tt)

execute-cleanup_batch_example :
    execute platform atomic command "conversion-1" "event-1" 2000 []
      (cleaned retention (λ key. false) 3600000 false known_database)
    ≡ (
      ok (error_result (failure 409 idempotency_key_reuse)),
      cleaned retention (λ key. false) 3600000 false known_database,
    )
unfolding trim
execute-cleanup_batch_example =
    execute-cleanup_batch platform atomic atomic-IsTransaction command "conversion-1" "event-1" 2000
      [] known_database old_row old_response retention (λ key. false) 3600000 false passes
      one_row-Distinct old_row_stored refl (omega arith)

-- Two days after the answer the record goes, and the locked one stays.
cleaned_away : cleanup_batch retention (λ key. false) 172800000 false (old_row ∷ []) ≡ (ok 1, [])
unfolding cleanup_batch delete_expired delete_rows selected expired sort_by insert_by find
cleaned_away = refl

cleaned_locked :
    cleanup_batch retention (λ key. true) 172800000 false (old_row ∷ []) ≡ (ok 0, old_row ∷ [])
unfolding cleanup_batch delete_expired delete_rows selected expired sort_by insert_by find
cleaned_locked = refl
