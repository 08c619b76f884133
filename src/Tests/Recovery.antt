-- ===== src/Tests/Recovery.antt =====
-- The theorem on interrupted deliveries, applied to one whose order failed.
use wallet_conversion_engine.Prelude.{◌≡◌, refl, [], ◌∷◌}
use wallet_conversion_engine.Shared.Identifiers.{identifier_of}
use wallet_conversion_engine.Shared.Table.{find}
use wallet_conversion_engine.Shared.Text.{trim}
use wallet_conversion_engine.Conversion.Aggregate.{failure}
use wallet_conversion_engine.Conversion.Database.{atomic}
use wallet_conversion_engine.Conversion.Process.{process}
use wallet_conversion_engine.Conversion.Process.Recovery.{answer, interrupted, process-recovers}
use wallet_conversion_engine.Conversion.FakeExchange.{build_result}
use wallet_conversion_engine.Tests.World.{platform}
use wallet_conversion_engine.Tests.Processing.{event, waiting_database}
use wallet_conversion_engine.Tests.Exchange.{order, failing, succeeding, row, executed}

process-recovers_example :
    process platform atomic event
      (answer platform succeeding (row ∷ []))
      5000
      "wallet-2"
      (interrupted platform "conversion-1" "event-1" waiting_database)
    ≡ process platform atomic event (answer platform failing []) 5000 "wallet-2" waiting_database
unfolding find identifier_of trim
process-recovers_example =
    process-recovers platform atomic event failing succeeding [] (row ∷ [])
      (build_result order failure) 5000 "wallet-2" "conversion-1" waiting_database refl refl
      executed
