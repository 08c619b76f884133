-- ===== src/Tests/Processing.antt =====
-- The theorems on the delivery and the settlement of execution events, applied to an event for a
-- conversion of 1 USDT.
use wallet_conversion_engine.Prelude.{
  ap, String, ◌*◌, ◌^◌, ◌≡◌, refl, arith, true, none, some, [], ◌∷◌,
}
use wallet_conversion_engine.Shared.Result.{Result, ok}
use wallet_conversion_engine.Shared.Text.{trim}
use wallet_conversion_engine.Shared.Table.{string_eq, pair_eq, find, put}
use wallet_conversion_engine.Shared.Asset
use wallet_conversion_engine.Shared.Identifiers.{identifier_of}
use wallet_conversion_engine.Shared.Money
use wallet_conversion_engine.Shared.Exec.{◌>>=◌}
use wallet_conversion_engine.Wallet.Account as Account
use wallet_conversion_engine.Wallet.Repository as Wallets
use wallet_conversion_engine.Conversion.Aggregate.{
  Conversion, funds_reserved, execution_requested, success, failure, construct,
  apply_execution_result, mark_execution_requested,
}
use wallet_conversion_engine.Conversion.Repository as Conversions
use wallet_conversion_engine.Conversion.Outbox.{Payload, execution_requested_event}
use wallet_conversion_engine.Conversion.Matching.{assert_payload_matches}
use wallet_conversion_engine.Conversion.Processed.{exists_message, try_record}
use wallet_conversion_engine.Conversion.Database.{
  Database, atomic, atomic-IsTransaction, on_processed, on_wallets, on_conversions,
}
use wallet_conversion_engine.Conversion.Process.{
  ExecutionResult, replayed, processed_result, ensure_target_wallet, settle_wallets, save_result,
  complete_conversion, apply_outcome, settle_claimed, settlement, exchange_and_settle,
  process_bound, process_new, process,
}
use wallet_conversion_engine.Conversion.Process.Once.{process_once}
use wallet_conversion_engine.Wallet.Account.{WalletAccount}
use wallet_conversion_engine.Wallet.Account.Laws.{Becomes, IsValid}
use wallet_conversion_engine.Conversion.Repository.Refinement as ConversionLaws
use wallet_conversion_engine.Wallet.Repository.Refinement as WalletLaws
use wallet_conversion_engine.Conversion.Process.Completion.{
  Creditable, completed_conversion, settlement-success,
}
use wallet_conversion_engine.Conversion.Process.Settlement.{
  Settleable, message_claimed, failed_conversion, settlement-failure,
}
use wallet_conversion_engine.Conversion.Messaging.Channel.{Broker, execution_routing_key}
use wallet_conversion_engine.Conversion.Messaging.Consumer.{
  ConsumeMessage, handled, handle_message, handle_payload, on_message,
}
use wallet_conversion_engine.Conversion.Messaging.Execution.{
  discard, execute_event, handler, on_message-handler,
}
use wallet_conversion_engine.Tests.Decimal.{Amount, sample, sample-IsDecimal, places_from}
use wallet_conversion_engine.Tests.World.{
  btc, btc_of, usdt_of-IsMoney, btc_of-IsMoney, usdt_registered, btc_registered, platform, wallet,
  wallet-IsStorable, wallet_stored, database, conversion,
}

-- 1 USDT for 1 BTC, with the funds reserved.
abbrev waiting : Conversion Amount
waiting = record conversion {
  target_amount = btc_of 100000000;
  status = funds_reserved;
  exchange_execution_id = some "event-1";
}

abbrev pub waiting_database : Database
waiting_database = record database { conversions = Conversions.row_of platform waiting ∷ [] }

abbrev pub event : Payload
event = record {
  event_id = "event-1";
  event_type = execution_requested_event;
  conversion_id = "conversion-1";
  user_id = "user-1";
  source_asset = "USDT";
  target_asset = "BTC";
  source_amount = "1";
  target_amount = "1";
  occurred_at = "2026-01-01T00:00:00Z";
}

abbrev succeeds : Payload → Result ExecutionResult
succeeds payload =
    ok (record { outcome = success; reason = none; external_reference = "fake-event-1" })

abbrev fails : Payload → Result ExecutionResult
fails payload =
    ok (record { outcome = failure; reason = none; external_reference = "fake-event-1" })

abbrev settled_database : Database
settled_database = (process platform atomic event succeeds 5000 "wallet-2" waiting_database).1

-- The delivery completes the conversion.
first_delivery :
    process platform atomic event succeeds 5000 "wallet-2" waiting_database
    ≡ (ok (processed_result true), settled_database)
unfolding process process_new process_bound exchange_and_settle settlement settle_claimed
    apply_outcome complete_conversion save_result settle_wallets ensure_target_wallet on_processed
    on_wallets on_conversions exists_message try_record assert_payload_matches construct
    apply_execution_result mark_execution_requested Conversions.row_of Conversions.find_by_id
    Conversions.save Conversions.upsert_row Conversions.write_row Conversions.to_domain
    Conversions.mark_execution_requested_if_funds_reserved Wallets.commit_reservation Wallets.credit
    Wallets.create_if_missing Wallets.to_domain Wallets.write_row Wallets.returning Wallets.row_of
    Account.open_account Account.checked Account.assert_invariant Money.of_text Money.of_decimal
    Money.equals Money.zero_of Money.add Asset.of Asset.normalize identifier_of trim find put atomic
    places_from ◌>>=◌
first_delivery = refl

process_once_example :
    process platform atomic event fails 6000 "wallet-3" settled_database
    ≡ (ok replayed, settled_database)
unfolding identifier_of trim
process_once_example =
    process_once platform atomic atomic-IsTransaction event succeeds fails 5000 6000 "wallet-2"
      "wallet-3" "conversion-1" waiting_database settled_database (processed_result true) refl
      first_delivery

abbrev executing : Conversion Amount
executing = record waiting { status = execution_requested }

abbrev executing_database : Database
executing_database = record database { conversions = Conversions.row_of platform executing ∷ [] }

executing-IsStorable : ConversionLaws.IsStorable platform executing
unfolding identifier_of trim
executing-IsStorable = record {
  id_valid = refl;
  quote_valid = refl;
  user_valid = refl;
  source_registered = usdt_registered;
  target_registered = btc_registered;
  source_money = usdt_of-IsMoney 1000000;
  target_money = btc_of-IsMoney 100000000;
  distinct = cc;
  source_positive = omega arith;
  target_positive = omega arith;
  source_in_column = omega arith;
  target_in_column = omega arith;
}

settleable : Settleable platform event executing_database executing wallet
unfolding identifier_of trim find Conversions.quote_free Conversions.row_of
settleable = record {
  names_conversion = refl;
  event_new = refl;
  conversion_stored = refl;
  conversion_storable = executing-IsStorable;
  conversion_only = refl;
  holding = refl;
  bound = cc;
  wallet_stored = wallet_stored;
  wallet_storable = wallet-IsStorable;
  same_user = refl;
  same_asset = refl;
}

abbrev failure_result : ExecutionResult
failure_result = record { outcome = failure; reason = none; external_reference = "fake-event-1" }

settlement-failure_example :
    (w' : WalletAccount Amount) × Becomes sample wallet
      (5000000 * 10 ^ 12)
      (4000000 * 10 ^ 12)
      (1000000 * 10 ^ 12)
      w'
    × (settlement platform event failure_result 5000 "wallet-2" executing_database ≡ (
      ok (processed_result true),
      record (message_claimed platform sample-IsDecimal event executing_database executing wallet
          settleable failure) {
            wallets =
                put Wallets.wallet_key (Wallets.row_of platform w') executing_database.wallets;
            conversions =
                put Conversions.conversion_key
                  (Conversions.row_of platform (failed_conversion platform 5000 none executing))
                  executing_database.conversions;
          },
    ))
settlement-failure_example =
    settlement-failure platform sample-IsDecimal event executing_database executing wallet
      settleable failure_result 5000 "wallet-2" refl (omega arith)

abbrev target_wallet : WalletAccount Amount
target_wallet = record {
  id = "wallet-2";
  user_id = "user-1";
  asset = btc;
  balance = btc_of 5;
  available = btc_of 5;
  reserved = btc_of 0;
}

target_wallet-IsValid : IsValid sample target_wallet
target_wallet-IsValid = record {
  balance_money = btc_of-IsMoney 5;
  available_money = btc_of-IsMoney 5;
  reserved_money = btc_of-IsMoney 0;
  composed = omega arith;
  bounded = omega arith;
}

target_wallet-IsStorable : WalletLaws.IsStorable platform target_wallet
unfolding identifier_of trim
target_wallet-IsStorable = record {
  valid = target_wallet-IsValid;
  user = refl;
  registered = btc_registered;
  named = refl;
  in_column = omega arith;
}

-- Both wallets of the user are stored.
abbrev trading_database : Database
trading_database = record executing_database {
  wallets = Wallets.row_of platform wallet ∷ Wallets.row_of platform target_wallet ∷ [];
}

ready : Settleable platform event trading_database executing wallet
unfolding identifier_of trim find Conversions.quote_free Conversions.row_of Wallets.row_of
ready = record {
  names_conversion = refl;
  event_new = refl;
  conversion_stored = refl;
  conversion_storable = executing-IsStorable;
  conversion_only = refl;
  holding = refl;
  bound = cc;
  wallet_stored = refl;
  wallet_storable = wallet-IsStorable;
  same_user = refl;
  same_asset = refl;
}

creditable : Creditable platform trading_database executing target_wallet
unfolding find Wallets.row_of
creditable = record {
  wallet_stored = refl;
  wallet_storable = target_wallet-IsStorable;
  same_user = refl;
  same_asset = refl;
  room = omega arith;
}

abbrev success_result : ExecutionResult
success_result = record { outcome = success; reason = none; external_reference = "fake-event-1" }

settlement-success_example :
    (w' : WalletAccount Amount) × Becomes sample wallet
      (4000000 * 10 ^ 12)
      (3000000 * 10 ^ 12)
      (1000000 * 10 ^ 12)
      w'
    × (v' : WalletAccount Amount) × Becomes sample target_wallet
        (100000005 * 10 ^ 10)
        (100000005 * 10 ^ 10)
        0
        v'
    × (settlement platform event success_result 5000 "wallet-3" trading_database ≡ (
      ok (processed_result true),
      record (message_claimed platform sample-IsDecimal event trading_database executing wallet
          ready success) {
            wallets =
                put Wallets.wallet_key
                  (Wallets.row_of platform v')
                  (put Wallets.wallet_key (Wallets.row_of platform w') trading_database.wallets);
            conversions =
                put Conversions.conversion_key
                  (Conversions.row_of platform (completed_conversion platform 5000 executing))
                  trading_database.conversions;
          },
    ))
settlement-success_example =
    settlement-success platform sample-IsDecimal event trading_database executing wallet
      target_wallet ready creditable success_result 5000 "wallet-3" refl (omega arith)

abbrev event_message : ConsumeMessage String
event_message = record {
  content = "{}";
  headers = none;
  message_id = some "event-1";
  correlation_id = some "event-1";
}

-- A broker that answers nothing.
abbrev silent : Broker String
silent publication = record { writable = true; confirms = none; drained = none }

first_handled :
    handler platform atomic
      (λ (body : String). some event)
      succeeds
      5000
      "wallet-2"
      event_message
      waiting_database
    ≡ (ok tt, settled_database)
unfolding handler handle_message handle_payload execute_event
first_handled = ap discard first_delivery

on_message-handler_example :
    on_message silent
      (ok tt)
      3
      execution_routing_key
      (λ problem. "Error")
      (handler platform atomic (λ (body : String). some event) fails 6000 "wallet-3")
      event_message
      settled_database
    ≡ (handled, settled_database)
on_message-handler_example =
    on_message-handler platform atomic atomic-IsTransaction (λ (body : String). some event) succeeds
      fails 5000 6000 "wallet-2" "wallet-3" event_message waiting_database settled_database silent 3
      execution_routing_key (λ problem. "Error") first_handled
