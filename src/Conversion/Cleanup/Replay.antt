-- ===== src/Conversion/Cleanup/Replay.antt =====
-- `execute` of accept-quote.use-case.ts after a run of
-- conversion/infrastructure/idempotency-cleanup.service.ts.
use wallet_conversion_engine.Prelude.{
  ℕ, ◌+◌, ◌≤◌, ◌≡◌, Bool, none, some, List, String, str_eq, if◌then◌else◌,
}
use wallet_conversion_engine.Shared.Result.{ok, idempotency_key_reuse}
use wallet_conversion_engine.Shared.Text.{trim}
use wallet_conversion_engine.Shared.Table.{string_eq, find}
use wallet_conversion_engine.Shared.Distinct.{Distinct}
use wallet_conversion_engine.Shared.Platform.{Platform}
use wallet_conversion_engine.Shared.Exec.{Exec}
use wallet_conversion_engine.Config.Settings.{CleanupSettings}
use wallet_conversion_engine.Conversion.Idempotency.{
  StoredResponse, IdempotencyRow, idempotency_key_of, IdempotencyLookup,
}
use wallet_conversion_engine.Conversion.Database.{Database, IsTransaction}
use wallet_conversion_engine.Conversion.AcceptQuote.{
  AcceptQuoteCommand, AcceptQuoteResult, replay_result, error_result, failure, request_failure,
  execute,
}
use wallet_conversion_engine.Conversion.AcceptQuote.Atomicity.{execute_known}
use wallet_conversion_engine.Conversion.Cleanup.{cleanup_batch}
use wallet_conversion_engine.Conversion.Cleanup.Retention.{find-cleanup_batch}

-- The database after a run of the cleanup.
abbrev pub cleaned : CleanupSettings → (String → Bool) → ℕ → Bool → Database → Database
cleaned settings locked now running db = record db {
  idempotency = (cleanup_batch settings locked now running db.idempotency).1;
}

module _ {D : Type 0} (p : Platform D)
    (transaction : Exec Database AcceptQuoteResult → Exec Database AcceptQuoteResult)
    (t : IsTransaction transaction) where
  -- A key that was answered no longer ago than the retention is still answered after a cleanup: from
  -- its record if it comes with the same quote, else as a reuse; nothing changes.
  pub execute-cleanup_batch :
      (command : AcceptQuoteCommand) (conversion_id event_id : String) (now : ℕ)
      (polls : List IdempotencyLookup) (db : Database) (row : IdempotencyRow)
      (response : StoredResponse) (settings : CleanupSettings) (locked : String → Bool)
      (cleaned_at : ℕ) (running : Bool)
      → request_failure (trim command.quote_id) (trim command.idempotency_key) ≡ none
      → Distinct idempotency_key_of db.idempotency
      → find idempotency_key_of (trim command.idempotency_key) db.idempotency ≡ some row
      → row.response ≡ some response
      → cleaned_at ≤ row.created_at + settings.retention_ms
      → execute p transaction command conversion_id event_id now polls
          (cleaned settings locked cleaned_at running db)
        ≡ (
          ok (
              if str_eq row.request_hash (p.sha256 (trim command.quote_id))
              then replay_result response.response_status response.response_body
              else error_result (failure 409 idempotency_key_reuse)),
          cleaned settings locked cleaned_at running db,
        )
  execute-cleanup_batch command conversion_id event_id now polls db row response settings locked
        cleaned_at running passes distinct found stored young =
      execute_known p transaction t command conversion_id event_id now polls
        (cleaned settings locked cleaned_at running db) row response passes
        (find-cleanup_batch settings locked cleaned_at running db.idempotency
          (trim command.idempotency_key) row distinct found young)
        stored
