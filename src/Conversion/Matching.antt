-- ===== src/Conversion/Matching.antt =====
-- `assertPayloadMatchesConversion` of conversion/application/process-conversion-execution.use-case.ts.
use wallet_conversion_engine.Prelude.{not, ◌||◌, str_eq}
use wallet_conversion_engine.Shared.Result.{Result, ◌>>=◌, ◌>>◌, throw_if, payload_mismatch}
use wallet_conversion_engine.Shared.Money
use wallet_conversion_engine.Shared.Platform.{Platform}
use wallet_conversion_engine.Conversion.Aggregate.{Conversion}
use wallet_conversion_engine.Conversion.Outbox.{Payload, execution_requested_event}

module _ {D : Type 0} (p : Platform D) where
  -- `assertPayloadMatchesConversion`
  unfoldable pub assert_payload_matches : Payload → Conversion D → Result (Unit {0})
  assert_payload_matches payload c = do
    throw_if (not (str_eq payload.event_type execution_requested_event)) payload_mismatch
    throw_if (not (str_eq payload.user_id c.user_id)) payload_mismatch
    throw_if
        (not (str_eq payload.source_asset c.source_amount.asset.code)
          || not (str_eq payload.target_asset c.target_amount.asset.code))
        payload_mismatch
    source_amount ← Money.of_text p.decimal payload.source_amount c.source_amount.asset
    target_amount ← Money.of_text p.decimal payload.target_amount c.target_amount.asset
    throw_if
        (not (Money.equals p.decimal source_amount c.source_amount)
          || not (Money.equals p.decimal target_amount c.target_amount))
        payload_mismatch
    throw_if (not (p.is_date payload.occurred_at)) payload_mismatch
