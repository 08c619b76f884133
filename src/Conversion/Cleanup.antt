-- ===== src/Conversion/Cleanup.antt =====
-- `deleteExpired` of conversion/infrastructure/prisma-idempotency.repository.ts and
-- conversion/infrastructure/idempotency-cleanup.service.ts. Times are milliseconds since the epoch; a
-- cutoff before the epoch is 0, and no row is older than that.
pub mod Retention
pub mod Replay
use wallet_conversion_engine.Prelude.{
  ℕ, suc, ◌-◌, Bool, true, false, not, ◌&&◌, List, [], ◌∷◌, String, ltb, take, if◌then◌else◌,
}
use wallet_conversion_engine.Shared.Result.{Result, ok}
use wallet_conversion_engine.Shared.Table.{string_eq, has}
use wallet_conversion_engine.Shared.Sort.{sort_by}
use wallet_conversion_engine.Shared.Exec.{Exec}
use wallet_conversion_engine.Conversion.Idempotency.{
  IdempotencyRow, IdempotencyTable, idempotency_key_of,
}
use wallet_conversion_engine.Config.Settings.{CleanupSettings}

abbrev pub created_at_of : IdempotencyRow → ℕ
created_at_of row = row.created_at

-- `created_at < before … FOR UPDATE SKIP LOCKED`: a row that another transaction has locked is passed
-- over.
abbrev pub is_expired : (String → Bool) → ℕ → IdempotencyRow → Bool
is_expired locked before row = ltb row.created_at before && not (locked row.idempotency_key)

unfoldable pub expired : (String → Bool) → ℕ → IdempotencyTable → IdempotencyTable
expired locked before [] = []
expired locked before (row ∷ t) =
    let rest = expired locked before t in if is_expired locked before row then row ∷ rest else rest

-- The inner SELECT.
unfoldable pub selected : (String → Bool) → ℕ → ℕ → IdempotencyTable → IdempotencyTable
selected locked before limit t = take limit (sort_by created_at_of (expired locked before t))

-- The outer DELETE, with the number of the rows that it returns.
abbrev pub one_row_more : ℕ × IdempotencyTable → ℕ × IdempotencyTable
one_row_more (deleted, t) = (suc deleted, t)

abbrev pub keep_row : IdempotencyRow → ℕ × IdempotencyTable → ℕ × IdempotencyTable
keep_row row (deleted, t) = (deleted, row ∷ t)

unfoldable pub delete_rows : IdempotencyTable → IdempotencyTable → ℕ × IdempotencyTable
delete_rows rows [] = (0, [])
delete_rows rows (row ∷ t) =
    let rest = delete_rows rows t in
    if has idempotency_key_of row.idempotency_key rows then one_row_more rest else keep_row row rest

-- `deleteExpired`
unfoldable pub delete_expired : (String → Bool) → ℕ → ℕ → IdempotencyTable → ℕ × IdempotencyTable
delete_expired locked before limit t = delete_rows (selected locked before limit t) t

abbrev pub answered : ℕ × IdempotencyTable → Result ℕ × IdempotencyTable
answered (deleted, t) = (ok deleted, t)

-- `cleanupBatch`, by the flag `running`, which is down again at the end.
unfoldable pub cleanup_batch :
    CleanupSettings → (String → Bool) → ℕ → Bool → Exec IdempotencyTable ℕ
cleanup_batch settings locked now true t = (ok 0, t)
cleanup_batch settings locked now false t =
    answered (delete_expired locked (now - settings.retention_ms) settings.batch_size t)
