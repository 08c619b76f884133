-- ===== src/Conversion/Process/Settlement.antt =====
-- What the settlement of process-conversion-execution.use-case.ts writes for a conversion that holds
-- reserved funds.
use wallet_conversion_engine.Prelude.{
  ℕ, ◌+◌, ◌-◌, ◌≤◌, ◌≡◌, ◌≢◌, refl, sym, ap, ◌∙◌, true, false, Option, none, some, String, arith,
  if◌then◌else◌,
}
use wallet_conversion_engine.Shared.Result.{ok}
use wallet_conversion_engine.Shared.Table.{string_eq, pair_eq, find, has, put}
use wallet_conversion_engine.Shared.Decimal.{IsDecimal}
use wallet_conversion_engine.Shared.Identifiers.{conversion_id_of}
use wallet_conversion_engine.Shared.Money.{IsMoney, units_of}
use wallet_conversion_engine.Shared.Platform.{Platform}
use wallet_conversion_engine.Shared.Exec.{pure, ◌>>=◌}
use wallet_conversion_engine.Wallet.Account as Account
use wallet_conversion_engine.Wallet.Account.{WalletAccount}
use wallet_conversion_engine.Wallet.Account.Laws.{Becomes, release_lem}
use wallet_conversion_engine.Wallet.Repository as Wallets
use wallet_conversion_engine.Wallet.Repository.{wallet_key, WalletTable}
use wallet_conversion_engine.Wallet.Repository.Refinement as WalletLaws
use wallet_conversion_engine.Conversion.Aggregate.{
  Conversion, ConversionStatus, failed, ExecutionOutcome, failure, is_funds_reserved, or_default,
  apply_execution_result, mark_execution_requested,
}
use wallet_conversion_engine.Conversion.Repository as Conversions
use wallet_conversion_engine.Conversion.Repository.{conversion_key, quote_free}
use wallet_conversion_engine.Conversion.Repository.Refinement as ConversionLaws
use wallet_conversion_engine.Conversion.Outbox.{Payload}
use wallet_conversion_engine.Conversion.Processed.{processed_key, try_record}
use wallet_conversion_engine.Conversion.Database.{
  Database, on_wallets_lem, on_conversions_lem, on_processed_lem, bind_step,
}
use wallet_conversion_engine.Conversion.Process.{
  ExecutionResult, processed_result, is_completed, is_failed, holds_funds, release_wallet,
  save_result, fail_conversion, apply_outcome, settle_claimed, settlement,
}

pub holds_funds_lem :
    (s : ConversionStatus)
    → holds_funds s ≡ true
    → (is_funds_reserved s ≡ false) × (is_completed s ≡ false) × (is_failed s ≡ false)
holds_funds_lem s h = ground arith

module _ {D : Type 0} (p : Platform D) where
  -- A stored conversion whose funds are reserved in a stored wallet, and an event for it that was
  -- not processed.
  pub record Settleable (payload : Payload) (db : Database) (c : Conversion D) (w : WalletAccount D)
      : Type 0 where
    pub names_conversion : conversion_id_of payload.conversion_id ≡ ok c.id
    pub event_new : has processed_key payload.event_id db.processed ≡ false
    pub conversion_stored : find conversion_key c.id db.conversions ≡ some (Conversions.row_of p c)
    pub conversion_storable : ConversionLaws.IsStorable p c
    pub conversion_only : quote_free c.id c.quote_id db.conversions ≡ true
    pub holding : holds_funds c.status ≡ true
    pub bound : c.exchange_execution_id ≢ none
    pub wallet_stored :
        find wallet_key (w.user_id, w.asset.code) db.wallets ≡ some (Wallets.row_of p w)
    pub wallet_storable : WalletLaws.IsStorable p w
    pub same_user : w.user_id ≡ c.user_id
    pub same_asset : w.asset ≡ c.source_amount.asset

  -- A conversion after a failure.
  abbrev pub failed_conversion : ℕ → Option String → Conversion D → Conversion D
  failed_conversion now reason c = record c {
    status = failed;
    completed_at = some now;
    failure_reason = or_default reason "execution_failed";
  }

  module _ (laws : IsDecimal p.decimal) (payload : Payload) (db : Database) (c : Conversion D)
      (w : WalletAccount D) (h : Settleable payload db c w) where
    -- The database after the message is claimed.
    abbrev pub message_claimed : ExecutionOutcome → Database
    message_claimed outcome = record db {
      processed =
          put processed_key
            (record {
              event_id = payload.event_id;
              conversion_id = payload.conversion_id;
              outcome = outcome;
            })
            db.processed;
    }

    claim_lem :
        (outcome : ExecutionOutcome)
        → try_record payload.event_id payload.conversion_id outcome db.processed
          ≡ (ok true, (message_claimed outcome).processed)
    unfolding try_record
    claim_lem outcome = rw h.event_new refl

    -- Up to the outcome.
    pub settlement_lem :
        (result : ExecutionResult) (now : ℕ) (wallet_id : String)
        → settlement p payload result now wallet_id db
          ≡ (apply_outcome p result.outcome now result.reason wallet_id c >>= λ applied.
                pure (processed_result true))
              (message_claimed result.outcome)
    unfolding settlement settle_claimed
    settlement_lem result now wallet_id =
        let mid : Database = message_claimed result.outcome in
        let (reserved, done, lost) = holds_funds_lem c.status h.holding in
        bind_step _ _ db (on_processed_lem db _ (claim_lem result.outcome))
        ∙ bind_step _ _ mid (ap (λ r. (r, mid)) h.names_conversion)
        ∙ bind_step _ _ mid (
            on_conversions_lem mid _ (
              ConversionLaws.find_by_id_lem p laws c h.conversion_storable db.conversions
                h.conversion_stored))
        ∙ bind_step _ _ mid refl
        ∙ bind_step _ _ mid (
            ap (λ b. (if b then mark_execution_requested payload.event_id c else ok c, mid))
              reserved)
        ∙ rw (done, lost) refl

    failed-IsStorable :
        (now : ℕ) (reason : Option String)
        → ConversionLaws.IsStorable p (failed_conversion now reason c)
    failed-IsStorable now reason =
        let s = h.conversion_storable in
        record {
          id_valid = s.id_valid;
          quote_valid = s.quote_valid;
          user_valid = s.user_valid;
          source_registered = s.source_registered;
          target_registered = s.target_registered;
          source_money = s.source_money;
          target_money = s.target_money;
          distinct = s.distinct;
          source_positive = s.source_positive;
          target_positive = s.target_positive;
          source_in_column = s.source_in_column;
          target_in_column = s.target_in_column;
        }

    pub amount_money : IsMoney p.decimal w.asset c.source_amount
    amount_money = rw h.same_asset h.conversion_storable.source_money

    fail_result :
        (now : ℕ) (reason : Option String)
        → apply_execution_result failure now reason c ≡ ok (failed_conversion now reason c)
    unfolding apply_execution_result
    fail_result now reason = ground (arith, h.holding)

    fail_saved :
        (now : ℕ) (reason : Option String)
        → Conversions.save p (failed_conversion now reason c) db.conversions ≡ (
          ok tt,
          put conversion_key (Conversions.row_of p (failed_conversion now reason c)) db.conversions,
        )
    fail_saved now reason =
        ConversionLaws.save_again p laws (failed_conversion now reason c)
          (failed-IsStorable now reason) c db.conversions (ground (arith, h.bound))
          (record {
            same_id = refl;
            same_quote_id = refl;
            same_user_id = refl;
            same_source_amount = refl;
            same_target_amount = refl;
            same_created_at = refl;
          })
          h.conversion_stored h.conversion_only

    release_at :
        (w' : WalletAccount D)
        → Account.release p.decimal w c.source_amount ≡ ok w'
        → Wallets.release p c.user_id c.source_amount.asset.code c.source_amount db.wallets
          ≡ (ok w', put wallet_key (Wallets.row_of p w') db.wallets)
    release_at w' e =
        ap (λ (k : String × String). Wallets.release p k.0 k.1 c.source_amount db.wallets)
          (ap (λ u. (u, c.source_amount.asset.code)) (sym h.same_user)
            ∙ ap (λ x. (w.user_id, x.code)) (sym h.same_asset))
        ∙ WalletLaws.release_refines p laws w c.source_amount db.wallets h.wallet_storable
            amount_money h.wallet_stored
        ∙ rw e refl

    -- The wallet and the conversion after a failure.
    failure_written :
        (now : ℕ) (reason : Option String) (wallet_id : String) (w' : WalletAccount D)
        → Account.release p.decimal w c.source_amount ≡ ok w'
        → apply_outcome p failure now reason wallet_id c (message_claimed failure) ≡ (
          ok tt,
          record (message_claimed failure) {
            wallets = put wallet_key (Wallets.row_of p w') db.wallets;
            conversions =
                put conversion_key
                  (Conversions.row_of p (failed_conversion now reason c))
                  db.conversions;
          },
        )
    unfolding apply_outcome fail_conversion release_wallet save_result
    failure_written now reason wallet_id w' e =
        let mid : Database = message_claimed failure in
        let paid : Database = record mid {
          wallets = put wallet_key (Wallets.row_of p w') db.wallets;
        } in
        let (reserved, done, lost) = holds_funds_lem c.status h.holding in
        ap (λ b. (if b then pure tt else fail_conversion p now reason c) mid) lost
        ∙ bind_step _ _ mid (
            ap (λ b. (if b then release_wallet p c else pure tt) mid) h.holding
            ∙ bind_step _ _ mid (on_wallets_lem mid _ (release_at w' e)))
        ∙ bind_step _ _ paid (ap (λ r. (r, paid)) (fail_result now reason))
        ∙ on_conversions_lem paid _ (fail_saved now reason)

    -- A failure of the exchange gives the funds back. For a stored conversion that waits for its
    -- result, whose amount is reserved in a stored wallet, and an event that was not processed, the
    -- settlement returns and writes exactly these rows: the wallet has the source amount moved from
    -- reserved back to available, with its balance as it was, the conversion is FAILED at this time
    -- with the reason, and the event is recorded as processed.
    pub settlement-failure :
        (result : ExecutionResult) (now : ℕ) (wallet_id : String)
        → result.outcome ≡ failure
        → units_of p.decimal c.source_amount ≤ units_of p.decimal w.reserved
        → (w' : WalletAccount D) × Becomes p.decimal w
            (units_of p.decimal w.balance)
            (units_of p.decimal w.available + units_of p.decimal c.source_amount)
            (units_of p.decimal w.reserved - units_of p.decimal c.source_amount)
            w'
          × (settlement p payload result now wallet_id db ≡ (
            ok (processed_result true),
            record (message_claimed failure) {
              wallets = put wallet_key (Wallets.row_of p w') db.wallets;
              conversions =
                  put conversion_key
                    (Conversions.row_of p (failed_conversion now result.reason c))
                    db.conversions;
            },
          ))
    settlement-failure result now wallet_id outcome covered =
        let (w', e, becomes) =
          release_lem p.decimal laws w c.source_amount h.wallet_storable.valid amount_money
            covered in
        (
          w',
          becomes,
          settlement_lem result now wallet_id
              ∙ ap
                  (λ o.
                    (apply_outcome p o now result.reason wallet_id c >>= λ applied.
                    pure (processed_result true))
                      (message_claimed o))
                  outcome
              ∙ bind_step _ _ (message_claimed failure)
                  (failure_written now result.reason wallet_id w' e),
        )
