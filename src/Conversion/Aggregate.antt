-- ===== src/Conversion/Aggregate.antt =====
-- conversion/domain/conversion.ts: the life of one conversion. A method returns the conversion
-- after it, or the error that it throws. Times are milliseconds.
pub mod Lifecycle
pub mod Results
use wallet_conversion_engine.Prelude.{
  ℕ, Bool, true, false, not, ◌&&◌, ◌||◌, Option, none, some, String, str_eq, if◌then◌else◌,
}
use wallet_conversion_engine.Shared.Result.{
  Result, ok, err, ◌>>=◌, ◌>>◌, throw_if, same_conversion_assets, zero_source_amount,
  zero_target_amount, invalid_conversion_transition, empty_event_id, already_bound,
  conflicting_execution_result,
}
use wallet_conversion_engine.Shared.Text.{trim}
use wallet_conversion_engine.Shared.Decimal.{DecimalLib}
use wallet_conversion_engine.Shared.Asset.{equals as same_asset}
use wallet_conversion_engine.Shared.Money
use wallet_conversion_engine.Shared.Money.{Money}

pub data ConversionStatus : Type 0 where
  created funds_reserved execution_requested completed failed requires_reconciliation :
      ConversionStatus

pub data ExecutionOutcome : Type 0 where
  success failure unknown : ExecutionOutcome

pub record Conversion (D : Type 0) : Type 0 where
  pub id : String
  pub quote_id : String
  pub user_id : String
  pub source_amount : Money D
  pub target_amount : Money D
  pub status : ConversionStatus
  pub exchange_execution_id : Option String
  pub created_at : ℕ
  pub completed_at : Option ℕ
  pub failure_reason : Option String

-- `TERMINAL.has(status)`
abbrev pub is_terminal_status : ConversionStatus → Bool
is_terminal_status completed = true
is_terminal_status failed = true
is_terminal_status requires_reconciliation = true
is_terminal_status _ = false

abbrev pub is_funds_reserved : ConversionStatus → Bool
is_funds_reserved funds_reserved = true
is_funds_reserved _ = false

abbrev pub is_created : ConversionStatus → Bool
is_created created = true
is_created _ = false

-- `reason ?? fallback`
abbrev pub or_default : Option String → String → Option String
or_default none fallback = some fallback
or_default (some reason) fallback = some reason

-- `this.exchangeExecutionIdValue !== null && this.exchangeExecutionIdValue !== eventId`
abbrev pub bound_elsewhere : Option String → String → Bool
bound_elsewhere none event_id = false
bound_elsewhere (some bound) event_id = not (str_eq bound event_id)

module _ {D : Type 0} where
  abbrev pub is_terminal : Conversion D → Bool
  is_terminal c = is_terminal_status c.status

  -- The constructor, and `Conversion.reconstitute`.
  unfoldable pub construct : Conversion D → Result (Conversion D)
  unfolding same_asset
  construct c = do
    throw_if (same_asset c.source_amount.asset c.target_amount.asset) same_conversion_assets
    ok c

  -- `Conversion.create`
  unfoldable pub create :
      DecimalLib D → String → String → String → Money D → Money D → ℕ → Result (Conversion D)
  unfolding construct
  create lib id quote_id user_id source_amount target_amount created_at = do
    throw_if (Money.is_zero lib source_amount) zero_source_amount
    throw_if (Money.is_zero lib target_amount) zero_target_amount
    construct (record {
      id = id;
      quote_id = quote_id;
      user_id = user_id;
      source_amount = source_amount;
      target_amount = target_amount;
      status = created;
      exchange_execution_id = none;
      created_at = created_at;
      completed_at = none;
      failure_reason = none;
    })

  unfoldable pub mark_funds_reserved : Conversion D → Result (Conversion D)
  mark_funds_reserved c = do
    throw_if (not (is_created c.status)) invalid_conversion_transition
    ok (record c { status = funds_reserved })

  unfoldable pub bind_execution_event : String → Conversion D → Result (Conversion D)
  bind_execution_event event_id c = do
    throw_if (not (is_funds_reserved c.status)) invalid_conversion_transition
    throw_if (str_eq (trim event_id) "") empty_event_id
    throw_if (bound_elsewhere c.exchange_execution_id event_id) already_bound
    ok (record c { exchange_execution_id = some event_id })

  unfoldable pub mark_execution_requested : String → Conversion D → Result (Conversion D)
  mark_execution_requested event_id c = do
    throw_if (not (is_funds_reserved c.status)) invalid_conversion_transition
    throw_if (str_eq (trim event_id) "") empty_event_id
    throw_if (bound_elsewhere c.exchange_execution_id event_id) already_bound
    ok (record c { exchange_execution_id = some event_id; status = execution_requested })

  complete : ℕ → Conversion D → Conversion D
  complete at c = record c { status = completed; completed_at = some at; failure_reason = none }

  fail : ℕ → Option String → Conversion D → Conversion D
  fail at reason c = record c {
    status = failed;
    completed_at = some at;
    failure_reason = or_default reason "execution_failed";
  }

  wait : Option String → Conversion D → Conversion D
  wait reason c = record c {
    status = requires_reconciliation;
    failure_reason = or_default reason "execution_unknown";
  }

  -- The branches of `applyExecutionResult`, by the status and the outcome.
  result_branch :
      ConversionStatus → ExecutionOutcome → ℕ → Option String → Conversion D → Result (Conversion D)
  unfolding complete fail wait
  result_branch requires_reconciliation unknown at reason c = ok c
  result_branch requires_reconciliation success at reason c = ok (complete at c)
  result_branch requires_reconciliation failure at reason c = ok (fail at reason c)
  result_branch completed success at reason c = ok c
  result_branch failed failure at reason c = ok c
  result_branch completed _ at reason c = err conflicting_execution_result
  result_branch failed _ at reason c = err conflicting_execution_result
  result_branch execution_requested success at reason c = ok (complete at c)
  result_branch execution_requested failure at reason c = ok (fail at reason c)
  result_branch execution_requested unknown at reason c = ok (wait reason c)
  result_branch _ _ at reason c = err invalid_conversion_transition

  unfoldable pub apply_execution_result :
      ExecutionOutcome → ℕ → Option String → Conversion D → Result (Conversion D)
  unfolding result_branch
  apply_execution_result outcome at reason c = result_branch c.status outcome at reason c
