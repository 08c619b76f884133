-- ===== src/Conversion/Process.antt =====
-- conversion/application/process-conversion-execution.use-case.ts. What the exchange answers, the
-- time of the clock and the id of a new wallet are arguments; metrics and logs are left out.
pub mod Records
pub mod Once
pub mod Settlement
pub mod Completion
pub mod Recovery
use wallet_conversion_engine.Prelude.{
  ℕ, Bool, true, false, not, ◌&&◌, ◌||◌, Option, none, some, List, String, str_eq, if◌then◌else◌,
}
use wallet_conversion_engine.Shared.Result.{
  Error, Result, ok, err, throw_if, not_bound, unexpected_status, conversion_not_found,
}
use wallet_conversion_engine.Shared.Asset.{Asset}
use wallet_conversion_engine.Shared.Identifiers.{conversion_id_of}
use wallet_conversion_engine.Shared.Money
use wallet_conversion_engine.Shared.Platform.{Platform}
use wallet_conversion_engine.Shared.Exec.{Exec, continue, ◌>>=◌, ◌>>◌, pure, throw, lift}
use wallet_conversion_engine.Wallet.Account.{open_account}
use wallet_conversion_engine.Wallet.Repository as Wallets
use wallet_conversion_engine.Conversion.Aggregate.{
  Conversion, ConversionStatus, created, funds_reserved, execution_requested, completed, failed,
  requires_reconciliation, ExecutionOutcome, success, failure, unknown, is_terminal,
  is_funds_reserved, bound_elsewhere, mark_execution_requested, apply_execution_result,
}
use wallet_conversion_engine.Conversion.Repository as Conversions
use wallet_conversion_engine.Conversion.Repository.{bound_to}
use wallet_conversion_engine.Conversion.Outbox.{Payload, execution_requested_event}
use wallet_conversion_engine.Conversion.Matching.{assert_payload_matches}
use wallet_conversion_engine.Conversion.Processed.{exists_message, try_record}
use wallet_conversion_engine.Conversion.Database.{
  Database, on_wallets, on_conversions, on_processed,
}

-- `ExecutionResult` of domain/ports/exchange-execution.port.ts.
pub record ExecutionResult : Type 0 where
  pub outcome : ExecutionOutcome
  pub reason : Option String
  pub external_reference : String

-- How `process` returns.
pub data Processing : Type 0 where
  replayed repaired already_claimed : Processing
  processed_result : Bool → Processing

-- `outcomeFromStatus`
abbrev pub outcome_from_status : ConversionStatus → ExecutionOutcome
outcome_from_status completed = success
outcome_from_status failed = failure
outcome_from_status _ = unknown

abbrev pub is_completed : ConversionStatus → Bool
is_completed completed = true
is_completed _ = false

abbrev pub is_failed : ConversionStatus → Bool
is_failed failed = true
is_failed _ = false

abbrev pub is_execution_requested : ConversionStatus → Bool
is_execution_requested execution_requested = true
is_execution_requested _ = false

-- EXECUTION_REQUESTED or REQUIRES_RECONCILIATION
abbrev pub holds_funds : ConversionStatus → Bool
holds_funds execution_requested = true
holds_funds requires_reconciliation = true
holds_funds _ = false

abbrev pub or_missing : {S A : Type 0} → Option A → Exec S A
or_missing none = throw conversion_not_found
or_missing (some a) = pure a

module _ {D : Type 0} (p : Platform D) where
  -- `ensureTargetWallet`, with the new id.
  unfoldable pub ensure_target_wallet : String → String → Asset → Exec Database (Unit {0})
  ensure_target_wallet wallet_id user_id asset = do
    wallet ← lift (open_account p.decimal wallet_id user_id asset (Money.zero_of p.decimal asset))
    on_wallets (Wallets.create_if_missing p wallet)

  -- The wallet statements of a success.
  unfoldable pub settle_wallets : String → Conversion D → Exec Database (Unit {0})
  settle_wallets wallet_id c = do
    source ←
        on_wallets
          (Wallets.commit_reservation p c.user_id c.source_amount.asset.code c.source_amount)
    ensured ← ensure_target_wallet wallet_id c.user_id c.target_amount.asset
    target ← on_wallets (Wallets.credit p c.user_id c.target_amount.asset.code c.target_amount)
    pure tt

  -- The wallet statement of a failure.
  unfoldable pub release_wallet : Conversion D → Exec Database (Unit {0})
  release_wallet c = do
    source ← on_wallets (Wallets.release p c.user_id c.source_amount.asset.code c.source_amount)
    pure tt

  -- `conversion.applyExecutionResult(…); await conversions.save(conversion);`
  unfoldable pub save_result :
      ExecutionOutcome → ℕ → Option String → Conversion D → Exec Database (Unit {0})
  save_result outcome now reason c = do
    after ← lift (apply_execution_result outcome now reason c)
    on_conversions (Conversions.save p after)

  -- A success of a conversion that is not completed.
  unfoldable pub complete_conversion : ℕ → String → Conversion D → Exec Database (Unit {0})
  complete_conversion now wallet_id c = do
    moved ← if holds_funds c.status then settle_wallets wallet_id c else pure tt
    save_result success now none c

  -- A failure of a conversion that has not failed.
  unfoldable pub fail_conversion : ℕ → Option String → Conversion D → Exec Database (Unit {0})
  fail_conversion now reason c = do
    moved ← if holds_funds c.status then release_wallet c else pure tt
    save_result failure now reason c

  -- `applyOutcome`
  unfoldable pub apply_outcome :
      ExecutionOutcome → ℕ → Option String → String → Conversion D → Exec Database (Unit {0})
  apply_outcome success now reason wallet_id c =
      if is_completed c.status then pure tt else complete_conversion now wallet_id c
  apply_outcome failure now reason wallet_id c =
      if is_failed c.status then pure tt else fail_conversion now reason c
  apply_outcome unknown now reason wallet_id c = save_result unknown now reason c

  -- `if (fresh.status === 'FUNDS_RESERVED') fresh.markExecutionRequested(eventId)`
  abbrev pub request_if_reserved : String → Conversion D → Result (Conversion D)
  request_if_reserved event_id c =
      if is_funds_reserved c.status then mark_execution_requested event_id c else ok c

  -- The settlement, once the message is claimed.
  unfoldable pub settle_claimed : Payload → ExecutionResult → ℕ → String → Exec Database Processing
  settle_claimed payload result now wallet_id = do
    id ← lift (conversion_id_of payload.conversion_id)
    found ← on_conversions (Conversions.find_by_id p id)
    fresh ← or_missing found
    requested ← lift (request_if_reserved payload.event_id fresh)
    applied ← apply_outcome result.outcome now result.reason wallet_id requested
    pure (processed_result (not (is_completed requested.status || is_failed requested.status)))

  -- The work of the settlement transaction.
  unfoldable pub settlement : Payload → ExecutionResult → ℕ → String → Exec Database Processing
  settlement payload result now wallet_id = do
    claimed ← on_processed (try_record payload.event_id payload.conversion_id result.outcome)
    if claimed then settle_claimed payload result now wallet_id else pure already_claimed

  -- A terminal conversion whose message was not recorded.
  unfoldable pub repair : Payload → Conversion D → Exec Database Processing
  repair payload c = do
    recorded ←
        on_processed
          (try_record payload.event_id payload.conversion_id (outcome_from_status c.status))
    pure repaired

  module _ (transaction : Exec Database Processing → Exec Database Processing) where
    unfoldable pub exchange_and_settle :
        Payload → (Payload → Result ExecutionResult) → ℕ → String → Exec Database Processing
    exchange_and_settle payload exchange now wallet_id = do
      result ← lift (exchange payload)
      transaction (settlement payload result now wallet_id)

    -- What follows once the conversion is known to be the one of the message.
    unfoldable pub process_bound :
        Payload
        → (Payload → Result ExecutionResult)
        → ℕ
        → String
        → Conversion D
        → Exec Database Processing
    process_bound payload exchange now wallet_id c =
        if is_terminal c
        then repair payload c
        else if not (is_execution_requested c.status)
        then throw unexpected_status
        else exchange_and_settle payload exchange now wallet_id

    -- What follows once the message is new.
    unfoldable pub process_new :
        Payload
        → (Payload → Result ExecutionResult)
        → ℕ
        → String
        → String
        → Exec Database Processing
    process_new payload exchange now wallet_id id = do
      found ←
          on_conversions
            (Conversions.mark_execution_requested_if_funds_reserved p id payload.event_id)
      c ← or_missing found
      matches ← lift (assert_payload_matches p payload c)
      bound ← lift (throw_if (not (bound_to c.exchange_execution_id payload.event_id)) not_bound)
      process_bound payload exchange now wallet_id c

    -- `process`
    unfoldable pub process :
        Payload → (Payload → Result ExecutionResult) → ℕ → String → Exec Database Processing
    process payload exchange now wallet_id = do
      id ← lift (conversion_id_of payload.conversion_id)
      seen ← on_processed (exists_message payload.event_id)
      if seen then pure replayed else process_new payload exchange now wallet_id id
