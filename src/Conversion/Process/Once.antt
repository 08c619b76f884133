-- ===== src/Conversion/Process/Once.antt =====
-- Repeated deliveries of one event to process-conversion-execution.use-case.ts.
use mathlib.Core.Path.{subst}
use wallet_conversion_engine.Prelude.{
  ℕ, ◌≡◌, refl, sym, ap, ◌∙◌, inl, inr, false, not, Option, none, some, String, if◌then◌else◌,
  Bool-cases,
}
use wallet_conversion_engine.Shared.Result.{Result, ok}
use wallet_conversion_engine.Shared.Table.{string_eq, has}
use wallet_conversion_engine.Shared.Identifiers.{conversion_id_of}
use wallet_conversion_engine.Shared.Platform.{Platform}
use wallet_conversion_engine.Shared.Exec.{Exec}
use wallet_conversion_engine.Conversion.Aggregate.{
  Conversion, ExecutionOutcome, success, failure, unknown, is_terminal,
}
use wallet_conversion_engine.Conversion.Outbox.{Payload}
use wallet_conversion_engine.Conversion.Processed.{processed_key, exists_message}
use wallet_conversion_engine.Conversion.Database.{Database, on_processed, IsTransaction, bind_step}
use wallet_conversion_engine.Conversion.Process.{
  ExecutionResult, Processing, replayed, or_missing, is_completed, is_failed, holds_funds,
  is_execution_requested, ensure_target_wallet, settle_wallets, release_wallet, save_result,
  complete_conversion, fail_conversion, apply_outcome, settle_claimed, settlement, repair,
  exchange_and_settle, process_bound, process_new, process,
}
use wallet_conversion_engine.Conversion.Process.Records.{
  IsRecorded, Keeps, Records, Keeps-lift, Keeps-on_wallets, Keeps-on_conversions, Keeps-if,
  Keeps-bind, Records-bind, Records-then, try_record-Records, throw-Records, settle-Records,
}

module _ {D : Type 0} (p : Platform D) where
  ensure_target_wallet-Keeps :
      (wallet_id user_id : String) (asset : _)
      → Keeps (ensure_target_wallet p wallet_id user_id asset)
  unfolding ensure_target_wallet
  ensure_target_wallet-Keeps wallet_id user_id asset =
      Keeps-bind _ _ (Keeps-lift _) λ wallet. Keeps-on_wallets _

  settle_wallets-Keeps :
      (wallet_id : String) (c : Conversion D) → Keeps (settle_wallets p wallet_id c)
  unfolding settle_wallets
  settle_wallets-Keeps wallet_id c = Keeps-bind _ _ (Keeps-on_wallets _) λ source.
      Keeps-bind _ _ (ensure_target_wallet-Keeps _ _ _)
        λ ensured. Keeps-bind _ _ (Keeps-on_wallets _) λ target. Keeps-lift _

  release_wallet-Keeps : (c : Conversion D) → Keeps (release_wallet p c)
  unfolding release_wallet
  release_wallet-Keeps c = Keeps-bind _ _ (Keeps-on_wallets _) λ source. Keeps-lift _

  save_result-Keeps :
      (outcome : ExecutionOutcome) (now : ℕ) (reason : Option String) (c : Conversion D)
      → Keeps (save_result p outcome now reason c)
  unfolding save_result
  save_result-Keeps outcome now reason c =
      Keeps-bind _ _ (Keeps-lift _) λ after. Keeps-on_conversions _

  apply_outcome-Keeps :
      (outcome : ExecutionOutcome) (now : ℕ) (reason : Option String) (wallet_id : String)
      (c : Conversion D)
      → Keeps (apply_outcome p outcome now reason wallet_id c)
  unfolding apply_outcome complete_conversion fail_conversion
  apply_outcome-Keeps success now reason wallet_id c =
      Keeps-if (is_completed c.status) (Keeps-lift _) (
        Keeps-bind _ _
          (Keeps-if (holds_funds c.status) (settle_wallets-Keeps wallet_id c) (Keeps-lift _))
          λ moved. save_result-Keeps success now none c)
  apply_outcome-Keeps failure now reason wallet_id c =
      Keeps-if (is_failed c.status) (Keeps-lift _) (
        Keeps-bind _ _ (Keeps-if (holds_funds c.status) (release_wallet-Keeps c) (Keeps-lift _))
          λ moved. save_result-Keeps failure now reason c)
  apply_outcome-Keeps unknown now reason wallet_id c = save_result-Keeps unknown now reason c

  or_missing-Keeps : {A : Type 0} (found : Option A) → Keeps (or_missing found)
  or_missing-Keeps none = record { keeps = λ db. refl }
  or_missing-Keeps (some a) = record { keeps = λ db. refl }

  settle_claimed-Keeps :
      (payload : Payload) (result : ExecutionResult) (now : ℕ) (wallet_id : String)
      → Keeps (settle_claimed p payload result now wallet_id)
  unfolding settle_claimed
  settle_claimed-Keeps payload result now wallet_id = Keeps-bind _ _ (Keeps-lift _) λ id.
      Keeps-bind _ _ (Keeps-on_conversions _) λ found.
        Keeps-bind _ _ (or_missing-Keeps found) λ fresh.
          Keeps-bind _ _ (Keeps-lift _)
            λ requested. Keeps-bind _ _ (apply_outcome-Keeps _ _ _ _ _) λ applied. Keeps-lift _

  settlement-Records :
      (payload : Payload) (result : ExecutionResult) (now : ℕ) (wallet_id : String)
      → Records payload.event_id (settlement p payload result now wallet_id)
  unfolding settlement
  settlement-Records payload result now wallet_id =
      Records-then _ _ _ (try_record-Records _ _ _) λ claimed.
        Keeps-if claimed (settle_claimed-Keeps payload result now wallet_id) (Keeps-lift _)

  repair-Records :
      (payload : Payload) (c : Conversion D) → Records payload.event_id (repair p payload c)
  unfolding repair
  repair-Records payload c = Records-then _ _ _ (try_record-Records _ _ _) λ recorded. Keeps-lift _

  module _ (transaction : Exec Database Processing → Exec Database Processing)
      (law : IsTransaction transaction) (payload : Payload) where
    transaction-Records :
        (work : Exec Database Processing)
        → Records payload.event_id work
        → Records payload.event_id (transaction work)
    transaction-Records work h = record {
      records = λ db a after e.
          settle-Records payload.event_id db (work db) (h.records db) a after
            (sym (law.settles work db) ∙ e);
    }

    exchange_and_settle-Records :
        (exchange : Payload → Result ExecutionResult) (now : ℕ) (wallet_id : String)
        → Records payload.event_id
            (exchange_and_settle p transaction payload exchange now wallet_id)
    unfolding exchange_and_settle
    exchange_and_settle-Records exchange now wallet_id =
        Records-bind _ _ _
          λ result. transaction-Records _ (settlement-Records payload result now wallet_id)

    process_bound-Records :
        (exchange : Payload → Result ExecutionResult) (now : ℕ) (wallet_id : String)
        (c : Conversion D)
        → Records payload.event_id (process_bound p transaction payload exchange now wallet_id c)
    unfolding process_bound
    process_bound-Records exchange now wallet_id c = elim (Bool-cases (is_terminal c)) [
      | inl terminal ↦ rw (terminal, if◌then◌else◌) (repair-Records payload c)
      | inr going ↦ elim (Bool-cases (is_execution_requested c.status)) [
        | inl requested ↦
            rw (going, requested, not, if◌then◌else◌)
              (exchange_and_settle-Records exchange now wallet_id)
        | inr other ↦ rw (going, other, not, if◌then◌else◌) (throw-Records payload.event_id _)
      ]
    ]

    process_new-Records :
        (exchange : Payload → Result ExecutionResult) (now : ℕ) (wallet_id id : String)
        → Records payload.event_id (process_new p transaction payload exchange now wallet_id id)
    unfolding process_new
    process_new-Records exchange now wallet_id id = Records-bind _ _ _ λ found.
        Records-bind _ _ _ λ c.
          Records-bind _ _ _
            λ matches. Records-bind _ _ _ λ bound. process_bound-Records exchange now wallet_id c

    module _ (exchange : Payload → Result ExecutionResult) (now : ℕ) (wallet_id : String)
        (db : Database) where
      process_known :
          (id : String)
          → conversion_id_of payload.conversion_id ≡ ok id
          → IsRecorded payload.event_id db
          → process p transaction payload exchange now wallet_id db ≡ (ok replayed, db)
      unfolding process exists_message on_processed
      process_known id valid known =
          bind_step _ _ db (ap (λ r. (r, db)) valid) ∙ bind_step _ _ db refl ∙ rw known refl

      process_unknown :
          (id : String)
          → conversion_id_of payload.conversion_id ≡ ok id
          → has processed_key payload.event_id db.processed ≡ false
          → process p transaction payload exchange now wallet_id db
            ≡ process_new p transaction payload exchange now wallet_id id db
      unfolding process exists_message on_processed
      process_unknown id valid new =
          bind_step _ _ db (ap (λ r. (r, db)) valid) ∙ bind_step _ _ db refl ∙ rw new refl

      -- What returns has recorded the message.
      process-IsRecorded :
          (id : String) (r : Processing) (after : Database)
          → conversion_id_of payload.conversion_id ≡ ok id
          → process p transaction payload exchange now wallet_id db ≡ (ok r, after)
          → IsRecorded payload.event_id after
      process-IsRecorded id r after valid returned =
          elim (Bool-cases (has processed_key payload.event_id db.processed)) [
            | inl known ↦
                subst (IsRecorded payload.event_id)
                  (ap (λ o. o.1) (sym (process_known id valid known) ∙ returned)) known
            | inr new ↦
                (process_new-Records exchange now wallet_id id).records db r after
                  (sym (process_unknown id valid new) ∙ returned)
          ]

    -- A delivery of an execution event is processed once: after a delivery that returned without an
    -- error, whatever its result was, any later delivery of the same event returns as a replay and
    -- writes nothing, whatever the exchange would answer then. The transaction is one that commits
    -- what returns and rolls back what throws, and the event's conversion id is valid.
    pub process_once :
        (exchange again : Payload → Result ExecutionResult) (now later : ℕ)
        (wallet_id other_id id : String) (db after : Database) (r : Processing)
        → conversion_id_of payload.conversion_id ≡ ok id
        → process p transaction payload exchange now wallet_id db ≡ (ok r, after)
        → process p transaction payload again later other_id after ≡ (ok replayed, after)
    process_once exchange again now later wallet_id other_id id db after r valid returned =
        process_known again later other_id after id valid
          (process-IsRecorded exchange now wallet_id db id r after valid returned)
