-- ===== src/Conversion/AcceptQuote/Acceptable.antt =====
-- When nothing but the balance stands against an acceptance of accept-quote.use-case.ts, and the
-- records that the acceptance writes.
use wallet_conversion_engine.Prelude.{◌≡◌, ◌≤◌, true, false, none, some, str_eq}
use wallet_conversion_engine.Shared.Result.{ok}
use wallet_conversion_engine.Shared.Text.{trim}
use wallet_conversion_engine.Shared.Table.{string_eq, pair_eq, find, has}
use wallet_conversion_engine.Shared.Identifiers.{quote_id_of, conversion_id_of}
use wallet_conversion_engine.Shared.Platform.{Platform}
use wallet_conversion_engine.Wallet.Account.{WalletAccount}
use wallet_conversion_engine.Wallet.Repository as Wallets
use wallet_conversion_engine.Wallet.Repository.{wallet_key, WalletTable, reserved_outcome}
use wallet_conversion_engine.Wallet.Repository.Refinement.{reserve_refines}
use wallet_conversion_engine.Wallet.Repository.Refinement as WalletLaws
use wallet_conversion_engine.Pricing.Quote.{Quote, active}
use wallet_conversion_engine.Pricing.Repository as Quotes
use wallet_conversion_engine.Pricing.Repository.{quote_key}
use wallet_conversion_engine.Pricing.Repository.Refinement as QuoteLaws
use wallet_conversion_engine.Pricing.Repository.Refinement.{accepted_at_time}
use wallet_conversion_engine.Conversion.Aggregate.{Conversion, created, funds_reserved}
use wallet_conversion_engine.Conversion.Repository.{conversion_key, quote_free}
use wallet_conversion_engine.Conversion.Repository.Refinement as ConversionLaws
use wallet_conversion_engine.Conversion.Outbox.{
  OutboxMessage, outbox_key, execution_requested_event,
}
use wallet_conversion_engine.Conversion.Idempotency.{IdempotencyRow, idempotency_key_of}
use wallet_conversion_engine.Conversion.Database.{Database}
use wallet_conversion_engine.Conversion.AcceptQuote.{
  Attempt, accept_quote_scope, payload_of, response_of,
}

module _ {D : Type 0} (p : Platform D) where
  -- Nothing but the wallet's balance stands against the acceptance of a quote.
  pub record Acceptable (a : Attempt) (db : Database) (q : Quote D) (w : WalletAccount D)
      : Type 0 where
    pub key_new : find idempotency_key_of a.idempotency_key db.idempotency ≡ none
    pub names_quote : quote_id_of a.quote_id ≡ ok q.id
    pub quote_stored : find quote_key q.id db.quotes ≡ some (Quotes.row_of p q)
    pub quote_storable : QuoteLaws.IsStorable p q
    pub quote_active : q.status ≡ active
    pub in_time : a.now ≤ q.expires_at
    pub wallet_stored :
        find wallet_key (w.user_id, w.asset.code) db.wallets ≡ some (Wallets.row_of p w)
    pub wallet_storable : WalletLaws.IsStorable p w
    pub same_user : w.user_id ≡ q.user_id
    pub same_asset : w.asset ≡ q.source_amount.asset
    pub conversion_id_valid : conversion_id_of a.conversion_id ≡ ok a.conversion_id
    pub conversion_new : find conversion_key a.conversion_id db.conversions ≡ none
    pub quote_unused : quote_free a.conversion_id q.id db.conversions ≡ true
    pub event_id_valid : str_eq (trim a.event_id) "" ≡ false
    pub event_new : has outbox_key a.event_id db.outbox ≡ false

  -- The conversion of an accepted quote.
  abbrev pub new_conversion : Attempt → Quote D → Conversion D
  new_conversion a q = record {
    id = a.conversion_id;
    quote_id = q.id;
    user_id = q.user_id;
    source_amount = q.source_amount;
    target_amount = q.target_amount;
    status = created;
    exchange_execution_id = none;
    created_at = a.now;
    completed_at = none;
    failure_reason = none;
  }

  abbrev pub started_conversion : Attempt → Quote D → Conversion D
  started_conversion a q = record (new_conversion a q) {
    status = funds_reserved;
    exchange_execution_id = some a.event_id;
  }

  -- The event that asks for the execution.
  abbrev pub request_event : Attempt → Quote D → OutboxMessage
  request_event a q = record {
    id = a.event_id;
    event_type = execution_requested_event;
    aggregate_id = a.conversion_id;
    payload = payload_of p a q (started_conversion a q);
    created_at = a.now;
    published_at = none;
  }

  abbrev pub claim_row : Attempt → IdempotencyRow
  claim_row a = record {
    scope = accept_quote_scope;
    idempotency_key = a.idempotency_key;
    request_hash = a.request_hash;
    response = none;
    created_at = a.now;
  }

  abbrev pub answer_row : Attempt → Quote D → IdempotencyRow
  answer_row a q = record (claim_row a) {
    response = some (response_of p q (started_conversion a q));
  }

  module _ (a : Attempt) (q : Quote D) where
    pub new-IsStorable :
        QuoteLaws.IsStorable p q
        → conversion_id_of a.conversion_id ≡ ok a.conversion_id
        → ConversionLaws.IsStorable p (new_conversion a q)
    new-IsStorable s valid = record {
      id_valid = valid;
      quote_valid = s.id_valid;
      user_valid = s.user_valid;
      source_registered = s.source_registered;
      target_registered = s.target_registered;
      source_money = s.source_money;
      target_money = s.target_money;
      distinct = s.distinct;
      source_positive = s.source_positive;
      target_positive = s.target_positive;
      source_in_column = s.source_in_column;
      target_in_column = s.target_in_column;
    }

    pub started-IsStorable :
        QuoteLaws.IsStorable p q
        → conversion_id_of a.conversion_id ≡ ok a.conversion_id
        → ConversionLaws.IsStorable p (started_conversion a q)
    started-IsStorable s valid = record {
      id_valid = valid;
      quote_valid = s.id_valid;
      user_valid = s.user_valid;
      source_registered = s.source_registered;
      target_registered = s.target_registered;
      source_money = s.source_money;
      target_money = s.target_money;
      distinct = s.distinct;
      source_positive = s.source_positive;
      target_positive = s.target_positive;
      source_in_column = s.source_in_column;
      target_in_column = s.target_in_column;
    }
