-- ===== src/Conversion/FakeExchange.antt =====
-- conversion/infrastructure/fake-exchange.adapter.ts over the table `fake_exchange_executions`. The
-- amounts arrive as texts and are stored in the columns in units of 10^-18.
pub mod Laws
use Prim.Native.String.{◌++◌}
use wallet_conversion_engine.Prelude.{
  ℕ, ◌^◌, Bool, true, false, not, ◌&&◌, ◌||◌, Option, none, some, List, [], ◌∷◌, String, str_eq,
  leb, if◌then◌else◌,
}
use wallet_conversion_engine.Shared.Result.{
  Result, ok, err, ◌>>=◌, ◌>>◌, throw_if, or_throw, decimal_error, database_error,
  different_execution_command, invalid_persisted_outcome,
}
use wallet_conversion_engine.Shared.Table.{string_eq, find, has, put}
use wallet_conversion_engine.Shared.Platform.{Platform}
use wallet_conversion_engine.Shared.Exec.{Exec, continue}
use wallet_conversion_engine.Conversion.Aggregate.{ExecutionOutcome, success, failure, unknown}
use wallet_conversion_engine.Conversion.Outbox.{Payload}
use wallet_conversion_engine.Conversion.Process.{ExecutionResult}

-- `ExecuteConversionCommand` of domain/ports/exchange-execution.port.ts.
pub record ExecuteConversionCommand : Type 0 where
  pub client_order_id : String
  pub conversion_id : String
  pub user_id : String
  pub source_asset : String
  pub target_asset : String
  pub source_amount : String
  pub target_amount : String

-- The command that process-conversion-execution.use-case.ts makes of an event.
abbrev pub command_of : Payload → ExecuteConversionCommand
command_of payload = record {
  client_order_id = payload.event_id;
  conversion_id = payload.conversion_id;
  user_id = payload.user_id;
  source_asset = payload.source_asset;
  target_asset = payload.target_asset;
  source_amount = payload.source_amount;
  target_amount = payload.target_amount;
}

pub record ExecutionRow : Type 0 where
  pub client_order_id : String
  pub conversion_id : String
  pub user_id : String
  pub source_asset : String
  pub target_asset : String
  pub source_amount : ℕ
  pub target_amount : ℕ
  pub outcome : String
  pub reason : Option String
  pub external_reference : String

abbrev pub order_key : ExecutionRow → String
order_key row = row.client_order_id

abbrev pub ExecutionTable : Type 0
ExecutionTable = List ExecutionRow

pub record OrderMode : Type 0 where
  pub client_order_id : String
  pub mode : ExecutionOutcome

abbrev pub mode_key : OrderMode → String
mode_key m = m.client_order_id

-- The fields of the adapter.
pub record Adapter : Type 0 where
  pub default_mode : ExecutionOutcome
  pub per_order_mode : List OrderMode

abbrev pub outcome_text : ExecutionOutcome → String
outcome_text success = "SUCCESS"
outcome_text failure = "FAILURE"
outcome_text unknown = "UNKNOWN"

unfoldable pub parse_outcome : String → Option ExecutionOutcome
parse_outcome value =
    if str_eq value "FAILURE"
    then some failure
    else if str_eq value "UNKNOWN"
    then some unknown
    else if str_eq value "SUCCESS"
    then some success
    else none

-- `parseMode`
abbrev pub or_success : Option ExecutionOutcome → ExecutionOutcome
or_success none = success
or_success (some mode) = mode

unfoldable pub parse_mode : String → ExecutionOutcome
unfolding parse_outcome
parse_mode value = or_success (parse_outcome value)

-- `parsePersistedOutcome`
unfoldable pub parse_persisted_outcome : String → Result ExecutionOutcome
parse_persisted_outcome value = or_throw (parse_outcome value) invalid_persisted_outcome

-- The constructor, on the setting `FAKE_EXCHANGE_MODE`.
abbrev pub setting_or_success : Option String → String
setting_or_success none = "SUCCESS"
setting_or_success (some setting) = setting

unfoldable pub create_adapter : (String → String) → Option String → Adapter
create_adapter to_upper_case setting = record {
  default_mode = parse_mode (to_upper_case (setting_or_success setting));
  per_order_mode = [];
}

unfoldable pub set_mode : ExecutionOutcome → Adapter → Adapter
set_mode mode a = record a { default_mode = mode }

unfoldable pub set_mode_for_client_order : String → ExecutionOutcome → Adapter → Adapter
set_mode_for_client_order id mode a = record a {
  per_order_mode = put mode_key (record { client_order_id = id; mode = mode }) a.per_order_mode;
}

-- `this.perOrderMode.get(…) ?? this.defaultMode`
abbrev pub mode_or_default : Option OrderMode → ExecutionOutcome → ExecutionOutcome
mode_or_default none default = default
mode_or_default (some m) default = m.mode

abbrev pub mode_of : Adapter → String → ExecutionOutcome
mode_of a id = mode_or_default (find mode_key id a.per_order_mode) a.default_mode

-- `buildResult`
abbrev pub reason_of : ExecutionOutcome → Option String
reason_of success = none
reason_of failure = some "simulated_exchange_failure"
reason_of unknown = some "simulated_exchange_timeout"

unfoldable pub build_result : ExecuteConversionCommand → ExecutionOutcome → ExecutionResult
build_result command mode = record {
  outcome = mode;
  reason = reason_of mode;
  external_reference = "fake-" ++ command.client_order_id;
}

-- The row that `createMany` is given.
abbrev pub row_with : ExecuteConversionCommand → ExecutionResult → ℕ → ℕ → ExecutionRow
row_with command proposed source_amount target_amount = record {
  client_order_id = command.client_order_id;
  conversion_id = command.conversion_id;
  user_id = command.user_id;
  source_asset = command.source_asset;
  target_asset = command.target_asset;
  source_amount = source_amount;
  target_amount = target_amount;
  outcome = outcome_text proposed.outcome;
  reason = proposed.reason;
  external_reference = proposed.external_reference;
}

abbrev pub identity_matches : ExecuteConversionCommand → ExecutionRow → Bool
identity_matches command row =
    str_eq row.conversion_id command.conversion_id
    && str_eq row.user_id command.user_id
    && str_eq row.source_asset command.source_asset
    && str_eq row.target_asset command.target_asset

-- `&&` leaves the second amount alone where the first differs.
abbrev pub amounts_match : Result Bool → Result Bool → Result Bool
amounts_match (ok true) second = second
amounts_match first second = first

-- `createMany` with `skipDuplicates`: a row whose id is taken is skipped.
unfoldable pub create_many : ExecutionRow → ExecutionTable → ExecutionTable
create_many row t = if has order_key row.client_order_id t then t else put order_key row t

module _ {D : Type 0} (p : Platform D) where
  -- A text as the value of a column NUMERIC(38, 18).
  unfoldable pub column_of : String → Result ℕ
  column_of text = do
    value ← or_throw (p.decimal.parse text) decimal_error
    throw_if (leb (10 ^ 38) (p.decimal.to_numeric value 18)) database_error
    ok (p.decimal.to_numeric value 18)

  unfoldable pub row_of : ExecutionResult → ExecuteConversionCommand → Result ExecutionRow
  row_of proposed command = do
    source_amount ← column_of command.source_amount
    target_amount ← column_of command.target_amount
    ok (row_with command proposed source_amount target_amount)

  -- `new Decimal(String(stored)).equals(text)`
  unfoldable pub same_amount : ℕ → String → Result Bool
  same_amount stored text = do
    value ← or_throw (p.decimal.parse text) decimal_error
    ok (p.decimal.equals (p.decimal.of_numeric stored) value)

  -- `assertSameCommand`
  unfoldable pub assert_same_command : ExecuteConversionCommand → ExecutionRow → Result (Unit {0})
  assert_same_command command row = do
    same ←
        amounts_match (same_amount row.source_amount command.source_amount)
          (same_amount row.target_amount command.target_amount)
    throw_if (not (identity_matches command row) || not same) different_execution_command

  -- The answer from the row that is stored.
  unfoldable pub replay : ExecuteConversionCommand → ExecutionRow → Result ExecutionResult
  replay command row = do
    assert_same_command command row
    outcome ← parse_persisted_outcome row.outcome
    ok (record {
      outcome = outcome;
      reason = row.reason;
      external_reference = row.external_reference;
    })

  -- `findUniqueOrThrow`, and the answer from the row that it returns.
  abbrev pub replay_found : ExecuteConversionCommand → Option ExecutionRow → Result ExecutionResult
  replay_found command none = err database_error
  replay_found command (some persisted) = replay command persisted

  unfoldable pub read_back : ExecuteConversionCommand → Exec ExecutionTable ExecutionResult
  read_back command t = (replay_found command (find order_key command.client_order_id t), t)

  -- `execute`
  unfoldable pub execute : Adapter → ExecuteConversionCommand → Exec ExecutionTable ExecutionResult
  execute a command t =
      continue (row_of (build_result command (mode_of a command.client_order_id)) command)
        (λ row t'. read_back command (create_many row t')) t
