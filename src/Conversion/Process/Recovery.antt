-- ===== src/Conversion/Process/Recovery.antt =====
-- `execute` of conversion/application/process-conversion-execution.use-case.ts with the fake exchange
-- of conversion/infrastructure/fake-exchange.adapter.ts: a delivery that stops between the answer of
-- the exchange and the settlement, and the delivery after it.
use wallet_conversion_engine.Prelude.{ℕ, ◌≡◌, refl, sym, ap, ◌∙◌, false, String}
use wallet_conversion_engine.Shared.Result.{Result, ok}
use wallet_conversion_engine.Shared.Table.{string_eq, has}
use wallet_conversion_engine.Shared.Identifiers.{conversion_id_of}
use wallet_conversion_engine.Shared.Platform.{Platform}
use wallet_conversion_engine.Shared.Exec.{Exec, ◌>>=◌}
use wallet_conversion_engine.Conversion.Repository.{mark_execution_requested_if_funds_reserved}
use wallet_conversion_engine.Conversion.Repository.Marking.{mark_again}
use wallet_conversion_engine.Conversion.Outbox.{Payload}
use wallet_conversion_engine.Conversion.Processed.{processed_key, exists_message}
use wallet_conversion_engine.Conversion.Database.{Database, on_conversions, on_processed, bind_step}
use wallet_conversion_engine.Conversion.Process.{
  ExecutionResult, Processing, exchange_and_settle, process_bound, process_new, process,
}
use wallet_conversion_engine.Conversion.FakeExchange.{ExecutionTable, Adapter, command_of, execute}
use wallet_conversion_engine.Conversion.FakeExchange.Laws.{execute_again}

-- A statement that repeats itself is as well made before a chain that begins with it.
again->>= :
    {S A B : Type 0} (m : Exec S A) (f : A → Exec S B) (s : S)
    → m (m s).1 ≡ m s
    → (m >>= f) (m s).1 ≡ (m >>= f) s
unfolding ◌>>=◌
again->>= m f s again = rw again refl

module _ {D : Type 0} (p : Platform D) where
  -- What the adapter answers to the event, over its table.
  unfoldable pub answer : Adapter → ExecutionTable → Payload → Result ExecutionResult
  answer a t payload = (execute p a (command_of payload) t).0

  -- The database of a delivery that has marked the conversion and not settled it.
  unfoldable pub interrupted : String → String → Database → Database
  interrupted id event_id db =
      (on_conversions (mark_execution_requested_if_funds_reserved p id event_id) db).1

  interrupted_again :
      (id event_id : String) (db : Database)
      → on_conversions
          (mark_execution_requested_if_funds_reserved p id event_id)
          (on_conversions (mark_execution_requested_if_funds_reserved p id event_id) db).1
        ≡ on_conversions (mark_execution_requested_if_funds_reserved p id event_id) db
  unfolding on_conversions
  interrupted_again id event_id db =
      ap (λ x. (x.0, record db { conversions = x.1 })) (mark_again p event_id id db.conversions)

  module _ (transaction : Exec Database Processing → Exec Database Processing)
      (payload : Payload) where
    process_new-interrupted :
        (exchange : Payload → Result ExecutionResult) (now : ℕ) (wallet_id id : String)
        (db : Database)
        → process_new p transaction payload exchange now wallet_id id
            (interrupted id payload.event_id db)
          ≡ process_new p transaction payload exchange now wallet_id id db
    unfolding process_new interrupted
    process_new-interrupted exchange now wallet_id id db =
        again->>= _ _ db (interrupted_again id payload.event_id db)

    -- The exchange is asked about the event only.
    process-const :
        (exchange : Payload → Result ExecutionResult) (now : ℕ) (wallet_id : String) (db : Database)
        → process p transaction payload exchange now wallet_id db
          ≡ process p transaction payload (λ _. exchange payload) now wallet_id db
    unfolding process process_new process_bound exchange_and_settle
    process-const exchange now wallet_id db = refl

    process_unseen :
        (exchange : Payload → Result ExecutionResult) (now : ℕ) (wallet_id id : String)
        (db : Database)
        → conversion_id_of payload.conversion_id ≡ ok id
        → has processed_key payload.event_id db.processed ≡ false
        → process p transaction payload exchange now wallet_id db
          ≡ process_new p transaction payload exchange now wallet_id id db
    unfolding process exists_message on_processed
    process_unseen exchange now wallet_id id db valid new =
        bind_step _ _ db (ap (λ r. (r, db)) valid) ∙ bind_step _ _ db refl ∙ rw new refl

    process-interrupted :
        (exchange : Payload → Result ExecutionResult) (now : ℕ) (wallet_id id : String)
        (db : Database)
        → conversion_id_of payload.conversion_id ≡ ok id
        → has processed_key payload.event_id db.processed ≡ false
        → process p transaction payload exchange now wallet_id (interrupted id payload.event_id db)
          ≡ process p transaction payload exchange now wallet_id db
    unfolding interrupted on_conversions
    process-interrupted exchange now wallet_id id db valid new =
        process_unseen exchange now wallet_id id _ valid new
        ∙ process_new-interrupted exchange now wallet_id id db
        ∙ sym (process_unseen exchange now wallet_id id db valid new)

    -- A delivery that stops after the exchange has answered and before its settlement is made up for
    -- by the next one, whatever the modes of the fake exchange are by then: over the database and
    -- the executions that the first left, it returns and writes what an uninterrupted delivery at
    -- its time would, with the answer of the first. The event's conversion id is valid and its
    -- message was not recorded; the transaction may do anything.
    pub process-recovers :
        (first later : Adapter) (executions after : ExecutionTable) (r : ExecutionResult) (now : ℕ)
        (wallet_id id : String) (db : Database)
        → conversion_id_of payload.conversion_id ≡ ok id
        → has processed_key payload.event_id db.processed ≡ false
        → execute p first (command_of payload) executions ≡ (ok r, after)
        → process p transaction payload
            (answer later after)
            now
            wallet_id
            (interrupted id payload.event_id db)
          ≡ process p transaction payload (answer first executions) now wallet_id db
    unfolding answer
    process-recovers first later executions after r now wallet_id id db valid new executed =
        let again = execute_again p first later (command_of payload) executions after r executed in
        process-interrupted (answer later after) now wallet_id id db valid new
        ∙ process-const (answer later after) now wallet_id db
        ∙ ap (λ e. process p transaction payload (λ _. e) now wallet_id db)
            (ap (λ x. x.0) again ∙ sym (ap (λ x. x.0) executed))
        ∙ sym (process-const (answer first executions) now wallet_id db)
