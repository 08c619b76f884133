-- ===== src/Tests/Exchange.antt =====
-- The theorems on the fake exchange, applied to one order.
use wallet_conversion_engine.Prelude.{◌^◌, ◌≡◌, refl, some, [], ◌∷◌, arith}
use wallet_conversion_engine.Shared.Result.{ok, err, different_execution_command}
use wallet_conversion_engine.Shared.Table.{string_eq, find, put}
use wallet_conversion_engine.Conversion.Aggregate.{success, failure}
use wallet_conversion_engine.Conversion.FakeExchange.{
  ExecuteConversionCommand, ExecutionRow, ExecutionTable, Adapter, order_key, row_with,
  build_result, mode_of, column_of, row_of, same_amount, assert_same_command, parse_outcome,
  parse_persisted_outcome, replay, create_many, read_back, create_adapter, parse_mode, set_mode,
  set_mode_for_client_order, execute,
}
use wallet_conversion_engine.Conversion.FakeExchange.Laws.{
  IsStorable, execute_once, execute-different,
}
use wallet_conversion_engine.Tests.Decimal.{units, sample-IsDecimal, Fits-units}
use wallet_conversion_engine.Tests.World.{platform}

abbrev pub order : ExecuteConversionCommand
order = record {
  client_order_id = "event-1";
  conversion_id = "conversion-1";
  user_id = "user-1";
  source_asset = "USDT";
  target_asset = "BTC";
  source_amount = "1";
  target_amount = "1";
}

abbrev other_order : ExecuteConversionCommand
other_order = record order { conversion_id = "conversion-2" }

abbrev pub failing : Adapter
failing = record { default_mode = failure; per_order_mode = [] }

abbrev pub succeeding : Adapter
succeeding = record { default_mode = success; per_order_mode = [] }

one-IsStorable : IsStorable platform "1"
one-IsStorable = record {
  value = units (10 ^ 18);
  parsed = refl;
  fits = Fits-units (10 ^ 18) 18 (omega arith);
  bounded = omega arith;
}

-- A failing order stays failed when the adapter is set to succeed.
execute_once_example :
    (t' : ExecutionTable) × (execute platform failing order []
      ≡ (ok (build_result order failure), t'))
    × ((a' : Adapter) → execute platform a' order t' ≡ (ok (build_result order failure), t'))
unfolding find
execute_once_example =
    execute_once platform sample-IsDecimal failing order [] one-IsStorable one-IsStorable refl

abbrev pub row : ExecutionRow
row = row_with order (build_result order failure) (10 ^ 18) (10 ^ 18)

pub executed : execute platform failing order [] ≡ (ok (build_result order failure), row ∷ [])
unfolding execute read_back create_many replay build_result row_of column_of find put
    assert_same_command same_amount parse_persisted_outcome parse_outcome
executed = refl

row_found : find order_key "event-1" (row ∷ []) ≡ some row
unfolding find
row_found = refl

execute-different_example :
    execute platform succeeding other_order (row ∷ []) ≡ (err different_execution_command, row ∷ [])
execute-different_example =
    execute-different platform sample-IsDecimal succeeding other_order (row ∷ []) row one-IsStorable
      one-IsStorable row_found (omega arith, omega arith) refl

-- A setting in any case of letters that is no mode stands for success.
unknown_setting : create_adapter (λ t. t) (some "LATER") ≡ succeeding
unfolding create_adapter parse_mode parse_outcome
unknown_setting = refl

order_mode :
    mode_of (set_mode_for_client_order "event-1" failure (set_mode success failing)) "event-1"
    ≡ failure
unfolding set_mode set_mode_for_client_order find put
order_mode = refl
