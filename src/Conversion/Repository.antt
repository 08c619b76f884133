-- ===== src/Conversion/Repository.antt =====
-- conversion/infrastructure/prisma-conversion.repository.ts over the table `conversions`, with the
-- unique index on quote_id and the CHECK constraints of the migrations.
pub mod Refinement
pub mod Marking
use wallet_conversion_engine.Prelude.{
  is_some, ℕ, ◌^◌, ◌≡◌, Bool, true, false, not, ◌&&◌, ◌||◌, Option, none, some, List, [], ◌∷◌,
  String, str_eq, ltb, if◌then◌else◌,
}
use wallet_conversion_engine.Shared.Result.{Result, ok, err, ◌>>=◌, database_error}
use wallet_conversion_engine.Shared.Table.{string_eq, find, put}
use wallet_conversion_engine.Shared.Asset
use wallet_conversion_engine.Shared.Identifiers.{user_id_of, quote_id_of, conversion_id_of}
use wallet_conversion_engine.Shared.Columns.{numeric}
use wallet_conversion_engine.Shared.Money
use wallet_conversion_engine.Shared.Platform.{Platform}
use wallet_conversion_engine.Shared.Exec.{Exec, continue}
use wallet_conversion_engine.Conversion.Aggregate.{
  Conversion, ConversionStatus, created, funds_reserved, execution_requested, completed, failed,
  requires_reconciliation, is_funds_reserved, construct,
}

pub record ConversionRow : Type 0 where
  pub id : String
  pub quote_id : String
  pub user_id : String
  pub source_asset : String
  pub target_asset : String
  pub source_amount : ℕ
  pub target_amount : ℕ
  pub status : ConversionStatus
  pub exchange_execution_id : Option String
  pub failure_reason : Option String
  pub created_at : ℕ
  pub completed_at : Option ℕ

abbrev pub conversion_key : ConversionRow → String
conversion_key r = r.id

abbrev pub ConversionTable : Type 0
ConversionTable = List ConversionRow

-- conversions_lifecycle_check
abbrev pub lifecycle_allowed : ConversionStatus → Option String → Option ℕ → Option String → Bool
lifecycle_allowed created event at reason =
    not (is_some event) && not (is_some at) && not (is_some reason)
lifecycle_allowed funds_reserved event at reason =
    is_some event && not (is_some at) && not (is_some reason)
lifecycle_allowed execution_requested event at reason =
    is_some event && not (is_some at) && not (is_some reason)
lifecycle_allowed completed event at reason = is_some event && is_some at && not (is_some reason)
lifecycle_allowed failed event at reason = is_some event && is_some at && is_some reason
lifecycle_allowed requires_reconciliation event at reason =
    is_some event && not (is_some at) && is_some reason

-- conversions_positive_amounts_check, conversions_distinct_assets_check,
-- conversions_lifecycle_check and the 38 digits of the columns.
unfoldable pub row_allowed : ConversionRow → Bool
row_allowed r =
    ltb 0 r.source_amount
    && ltb 0 r.target_amount
    && ltb r.source_amount (10 ^ 38)
    && ltb r.target_amount (10 ^ 38)
    && not (str_eq r.source_asset r.target_asset)
    && lifecycle_allowed r.status r.exchange_execution_id r.completed_at r.failure_reason

-- The unique index on quote_id: no other conversion is for the quote.
unfoldable pub quote_free : String → String → ConversionTable → Bool
quote_free id quote_id [] = true
quote_free id quote_id (r ∷ t) =
    (str_eq r.id id || not (str_eq r.quote_id quote_id)) && quote_free id quote_id t

unfoldable pub write_row : ConversionRow → Exec ConversionTable ConversionRow
unfolding row_allowed quote_free
write_row r t =
    if row_allowed r && quote_free r.id r.quote_id t
    then (ok r, put conversion_key r t)
    else (err database_error, t)

-- `exchange_execution_id = ${eventId}`, which NULL does not meet
abbrev pub bound_to : Option String → String → Bool
bound_to none event_id = false
bound_to (some bound) event_id = str_eq bound event_id

module _ {D : Type 0} (p : Platform D) where
  -- `toDomain`
  unfoldable pub to_domain : ConversionRow → Result (Conversion D)
  to_domain row = do
    source_asset ← Asset.of p.to_upper_case row.source_asset p.registry
    target_asset ← Asset.of p.to_upper_case row.target_asset p.registry
    id ← conversion_id_of row.id
    quote_id ← quote_id_of row.quote_id
    user_id ← user_id_of row.user_id
    source_amount ← Money.of_decimal p.decimal (p.decimal.of_numeric row.source_amount) source_asset
    target_amount ← Money.of_decimal p.decimal (p.decimal.of_numeric row.target_amount) target_asset
    construct (record {
      id = id;
      quote_id = quote_id;
      user_id = user_id;
      source_amount = source_amount;
      target_amount = target_amount;
      status = row.status;
      exchange_execution_id = row.exchange_execution_id;
      created_at = row.created_at;
      completed_at = row.completed_at;
      failure_reason = row.failure_reason;
    })

  -- The columns that `save` writes.
  unfoldable pub row_of : Conversion D → ConversionRow
  row_of c = record {
    id = c.id;
    quote_id = c.quote_id;
    user_id = c.user_id;
    source_asset = c.source_amount.asset.code;
    target_asset = c.target_amount.asset.code;
    source_amount = numeric p c.source_amount;
    target_amount = numeric p c.target_amount;
    status = c.status;
    exchange_execution_id = c.exchange_execution_id;
    failure_reason = c.failure_reason;
    created_at = c.created_at;
    completed_at = c.completed_at;
  }

  -- An existing row keeps all but the columns of the life cycle.
  unfoldable pub upsert_row : ConversionRow → Option ConversionRow → ConversionRow
  upsert_row r none = r
  upsert_row r (some old) = record old {
    status = r.status;
    exchange_execution_id = r.exchange_execution_id;
    failure_reason = r.failure_reason;
    completed_at = r.completed_at;
  }

  unfoldable pub save : Conversion D → Exec ConversionTable (Unit {0})
  save c t =
      continue (write_row (upsert_row (row_of c) (find conversion_key c.id t)) t).0
        (λ r t'. (ok tt, t')) (write_row (upsert_row (row_of c) (find conversion_key c.id t)) t).1

  unfoldable pub found_conversion : Option ConversionRow → Result (Option (Conversion D))
  unfolding to_domain
  found_conversion none = ok none
  found_conversion (some row) = do c ← to_domain row; ok (some c)

  unfoldable pub find_by_id : String → Exec ConversionTable (Option (Conversion D))
  unfolding found_conversion
  find_by_id id t = (found_conversion (find conversion_key id t), t)

  -- `status = 'FUNDS_RESERVED' AND exchange_execution_id = ${eventId}`
  abbrev pub is_bound_to : String → ConversionRow → Bool
  is_bound_to event_id row =
      is_funds_reserved row.status && bound_to row.exchange_execution_id event_id

  unfoldable request_row :
      String → Option ConversionRow → Exec ConversionTable (Option (Conversion D))
  unfolding found_conversion write_row
  request_row event_id none t = (ok none, t)
  request_row event_id (some row) t =
      if is_bound_to event_id row
      then continue (write_row (record row { status = execution_requested }) t).0
          (λ r t'. (found_conversion (some r), t'))
          (write_row (record row { status = execution_requested }) t).1
      else (found_conversion (some row), t)

  -- `markExecutionRequestedIfFundsReserved`
  unfoldable pub mark_execution_requested_if_funds_reserved :
      String → String → Exec ConversionTable (Option (Conversion D))
  unfolding request_row
  mark_execution_requested_if_funds_reserved id event_id t =
      request_row event_id (find conversion_key id t) t
