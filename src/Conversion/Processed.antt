-- ===== src/Conversion/Processed.antt =====
-- conversion/infrastructure/prisma-processed-message.repository.ts over `processed_messages`.
use wallet_conversion_engine.Prelude.{Bool, true, false, List, String, if◌then◌else◌}
use wallet_conversion_engine.Shared.Result.{ok}
use wallet_conversion_engine.Shared.Table.{string_eq, has, put}
use wallet_conversion_engine.Shared.Exec.{Exec}
use wallet_conversion_engine.Conversion.Aggregate.{ExecutionOutcome}

pub record ProcessedMessage : Type 0 where
  pub event_id : String
  pub conversion_id : String
  pub outcome : ExecutionOutcome

abbrev pub processed_key : ProcessedMessage → String
processed_key m = m.event_id

abbrev pub ProcessedTable : Type 0
ProcessedTable = List ProcessedMessage

unfoldable pub exists_message : String → Exec ProcessedTable Bool
exists_message event_id t = (ok (has processed_key event_id t), t)

-- `tryRecord`: INSERT … ON CONFLICT DO NOTHING.
unfoldable pub try_record : String → String → ExecutionOutcome → Exec ProcessedTable Bool
try_record event_id conversion_id outcome t =
    if has processed_key event_id t then (ok false, t) else (
      ok true,
      put processed_key
          (record { event_id = event_id; conversion_id = conversion_id; outcome = outcome }) t,
    )
