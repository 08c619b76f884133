-- ===== src/Conversion/Process/Completion.antt =====
-- What the settlement of process-conversion-execution.use-case.ts writes for a success.
use wallet_conversion_engine.Prelude.{
  ℕ, ◌+◌, ◌-◌, ◌^◌, ◌≤◌, ◌<◌, ◌≡◌, refl, sym, ap, ◌∙◌, true, Option, none, some, String, arith,
  if◌then◌else◌, ◌==◌,
}
use wallet_conversion_engine.Shared.Result.{ok}
use wallet_conversion_engine.Shared.Table.{string_eq, pair_eq, find, put}
use wallet_conversion_engine.Shared.Decimal.{IsDecimal}
use wallet_conversion_engine.Shared.Money
use wallet_conversion_engine.Shared.Money.{IsMoney, units_of}
use wallet_conversion_engine.Shared.Money.Laws.{is_zero_lem, zero_of-IsMoney}
use wallet_conversion_engine.Shared.Platform.{Platform}
use wallet_conversion_engine.Shared.Exec.{pure, ◌>>=◌}
use wallet_conversion_engine.Wallet.Account as Account
use wallet_conversion_engine.Wallet.Account.{WalletAccount}
use wallet_conversion_engine.Wallet.Account.Laws.{
  Becomes, commit_reservation_lem, credit_lem, open_account-zero_of,
}
use wallet_conversion_engine.Wallet.Repository as Wallets
use wallet_conversion_engine.Wallet.Repository.{wallet_key, WalletTable}
use wallet_conversion_engine.Wallet.Repository.Refinement as WalletLaws
use wallet_conversion_engine.Conversion.Aggregate.{
  Conversion, completed, success, apply_execution_result,
}
use wallet_conversion_engine.Conversion.Repository as Conversions
use wallet_conversion_engine.Conversion.Repository.{conversion_key}
use wallet_conversion_engine.Conversion.Repository.Refinement as ConversionLaws
use wallet_conversion_engine.Conversion.Outbox.{Payload}
use wallet_conversion_engine.Conversion.Database.{
  Database, on_wallets_lem, on_conversions_lem, bind_step,
}
use wallet_conversion_engine.Conversion.Process.{
  ExecutionResult, processed_result, ensure_target_wallet, settle_wallets, save_result,
  complete_conversion, apply_outcome, settlement,
}
use wallet_conversion_engine.Conversion.Process.Settlement.{
  Settleable, message_claimed, settlement_lem, amount_money, holds_funds_lem,
}

module _ {D : Type 0} (p : Platform D) where
  abbrev pub target_of : Conversion D → String × String
  target_of c = (c.user_id, c.target_amount.asset.code)

  -- A stored wallet that the target amount of a conversion can be credited to.
  pub record Creditable (db : Database) (c : Conversion D) (v : WalletAccount D) : Type 0 where
    pub wallet_stored :
        find wallet_key (v.user_id, v.asset.code) db.wallets ≡ some (Wallets.row_of p v)
    pub wallet_storable : WalletLaws.IsStorable p v
    pub same_user : v.user_id ≡ c.user_id
    pub same_asset : v.asset ≡ c.target_amount.asset
    pub room : units_of p.decimal v.balance + units_of p.decimal c.target_amount < 10 ^ 38

  abbrev pub completed_conversion : ℕ → Conversion D → Conversion D
  completed_conversion now c = record c {
    status = completed;
    completed_at = some now;
    failure_reason = none;
  }

module _ {D : Type 0} (p : Platform D) (laws : IsDecimal p.decimal) (payload : Payload)
    (db : Database) (c : Conversion D) (w v : WalletAccount D) (h : Settleable p payload db c w)
    (k : Creditable p db c v) where
  completed-IsStorable : (now : ℕ) → ConversionLaws.IsStorable p (completed_conversion p now c)
  completed-IsStorable now =
      let s = h.conversion_storable in
      record {
        id_valid = s.id_valid;
        quote_valid = s.quote_valid;
        user_valid = s.user_valid;
        source_registered = s.source_registered;
        target_registered = s.target_registered;
        source_money = s.source_money;
        target_money = s.target_money;
        distinct = s.distinct;
        source_positive = s.source_positive;
        target_positive = s.target_positive;
        source_in_column = s.source_in_column;
        target_in_column = s.target_in_column;
      }

  complete_result :
      (now : ℕ) → apply_execution_result success now none c ≡ ok (completed_conversion p now c)
  unfolding apply_execution_result
  complete_result now = ground (arith, h.holding)

  complete_saved :
      (now : ℕ)
      → Conversions.save p (completed_conversion p now c) db.conversions ≡ (
        ok tt,
        put conversion_key (Conversions.row_of p (completed_conversion p now c)) db.conversions,
      )
  complete_saved now =
      ConversionLaws.save_again p laws (completed_conversion p now c) (completed-IsStorable now) c
        db.conversions (ground (arith, h.bound))
        (record {
          same_id = refl;
          same_quote_id = refl;
          same_user_id = refl;
          same_source_amount = refl;
          same_target_amount = refl;
          same_created_at = refl;
        })
        h.conversion_stored h.conversion_only

  target_money : IsMoney p.decimal v.asset c.target_amount
  target_money = rw k.same_asset h.conversion_storable.target_money

  commit_at :
      (w' : WalletAccount D)
      → Account.commit_reservation p.decimal w c.source_amount ≡ ok w'
      → Wallets.commit_reservation p c.user_id c.source_amount.asset.code c.source_amount db.wallets
        ≡ (ok w', put wallet_key (Wallets.row_of p w') db.wallets)
  commit_at w' e =
      ap
        (λ (key : String × String).
          Wallets.commit_reservation p key.0 key.1 c.source_amount db.wallets)
        (ap (λ u. (u, c.source_amount.asset.code)) (sym h.same_user)
          ∙ ap (λ x. (w.user_id, x.code)) (sym h.same_asset))
      ∙ WalletLaws.commit_reservation_refines p laws w c.source_amount db.wallets h.wallet_storable
          (amount_money p laws payload db c w h) h.wallet_stored
      ∙ rw e refl

  module _ (w' : WalletAccount D) (same : w'.asset ≡ w.asset) where
    abbrev paid : WalletTable
    paid = put wallet_key (Wallets.row_of p w') db.wallets

    -- The write of the source wallet leaves the row of the target wallet.
    target_found : find wallet_key (v.user_id, v.asset.code) paid ≡ some (Wallets.row_of p v)
    target_found =
        WalletLaws.find-put-row_of p laws w' v.user_id v.asset.code db.wallets (λ e.
          h.conversion_storable.distinct (
            ap (λ x. x.code) (sym h.same_asset)
            ∙ ap (λ x. x.code) (sym same)
            ∙ e
            ∙ ap (λ x. x.code) k.same_asset))
        ∙ k.wallet_stored

    target_key : target_of p c ≡ (v.user_id, v.asset.code)
    target_key =
        ap (λ u. (u, c.target_amount.asset.code)) (sym k.same_user)
        ∙ ap (λ x. (v.user_id, x.code)) (sym k.same_asset)

    nothing : Money.is_zero p.decimal (Money.zero_of p.decimal c.target_amount.asset) ≡ true
    unfolding Money.zero_of
    nothing =
        is_zero_lem p.decimal laws {asset = c.target_amount.asset} _
          (zero_of-IsMoney p.decimal laws h.conversion_storable.target_money.storable)
        ∙ ap (λ u. u == 0) laws.units-nought

    credit_at :
        (v' : WalletAccount D)
        → Account.credit p.decimal v c.target_amount ≡ ok v'
        → Wallets.credit p c.user_id c.target_amount.asset.code c.target_amount paid
          ≡ (ok v', put wallet_key (Wallets.row_of p v') paid)
    credit_at v' e =
        ap (λ (key : String × String). Wallets.credit p key.0 key.1 c.target_amount paid) target_key
        ∙ WalletLaws.credit_refines p laws v c.target_amount paid k.wallet_storable target_money
            target_found k.room
        ∙ rw e refl

    ensured :
        (wallet_id : String) (before : Database)
        → before.wallets ≡ paid
        → ensure_target_wallet p wallet_id c.user_id c.target_amount.asset before ≡ (ok tt, before)
    unfolding ensure_target_wallet
    ensured wallet_id before holds =
        bind_step _ _ before (
          ap (λ r. (r, before))
            (open_account-zero_of p.decimal laws wallet_id c.user_id c.target_amount.asset
              h.conversion_storable.target_money.storable))
        ∙ on_wallets_lem before _ (
            WalletLaws.create_if_missing_known p laws _ before.wallets nothing (
              ap (find wallet_key (c.user_id, c.target_amount.asset.code)) holds
              ∙ ap (λ key. find wallet_key key paid) target_key
              ∙ target_found))

    -- The wallets and the conversion after a success.
    success_written :
        (now : ℕ) (reason : Option String) (wallet_id : String) (v' : WalletAccount D)
        → Account.commit_reservation p.decimal w c.source_amount ≡ ok w'
        → Account.credit p.decimal v c.target_amount ≡ ok v'
        → apply_outcome p success now reason wallet_id c
            (message_claimed p laws payload db c w h success)
          ≡ (
            ok tt,
            record (message_claimed p laws payload db c w h success) {
              wallets = put wallet_key (Wallets.row_of p v') paid;
              conversions =
                  put conversion_key
                    (Conversions.row_of p (completed_conversion p now c))
                    db.conversions;
            },
          )
    unfolding apply_outcome complete_conversion settle_wallets save_result
    success_written now reason wallet_id v' e e' =
        let mid : Database = message_claimed p laws payload db c w h success in
        let taken : Database = record mid { wallets = paid } in
        let given : Database = record mid { wallets = put wallet_key (Wallets.row_of p v') paid } in
        let (reserved, done, lost) = holds_funds_lem c.status h.holding in
        ap (λ b. (if b then pure tt else complete_conversion p now wallet_id c) mid) done
        ∙ bind_step _ _ mid (
            ap (λ b. (if b then settle_wallets p wallet_id c else pure tt) mid) h.holding
            ∙ bind_step _ _ mid (on_wallets_lem mid _ (commit_at w' e))
            ∙ bind_step _ _ taken (ensured wallet_id taken refl)
            ∙ bind_step _ _ taken (on_wallets_lem taken _ (credit_at v' e')))
        ∙ bind_step _ _ given (ap (λ r. (r, given)) (complete_result now))
        ∙ on_conversions_lem given _ (complete_saved now)

  -- A success of the exchange moves the money. For a stored conversion that waits for its result,
  -- whose amount is reserved in a stored wallet, with a stored wallet of the same user for the
  -- target asset whose new balance has at most 38 digits, and an event that was not processed, the
  -- settlement returns and writes exactly these rows: the source wallet loses the source amount from
  -- reserved and from its balance, the target wallet gains the target amount in available and in its
  -- balance, the conversion is COMPLETED at this time, and the event is recorded as processed.
  pub settlement-success :
      (result : ExecutionResult) (now : ℕ) (wallet_id : String)
      → result.outcome ≡ success
      → units_of p.decimal c.source_amount ≤ units_of p.decimal w.reserved
      → (w' : WalletAccount D) × Becomes p.decimal w
          (units_of p.decimal w.balance - units_of p.decimal c.source_amount)
          (units_of p.decimal w.available)
          (units_of p.decimal w.reserved - units_of p.decimal c.source_amount)
          w'
        × (v' : WalletAccount D) × Becomes p.decimal v
            (units_of p.decimal v.balance + units_of p.decimal c.target_amount)
            (units_of p.decimal v.available + units_of p.decimal c.target_amount)
            (units_of p.decimal v.reserved)
            v'
        × (settlement p payload result now wallet_id db ≡ (
          ok (processed_result true),
          record (message_claimed p laws payload db c w h success) {
            wallets =
                put wallet_key
                  (Wallets.row_of p v')
                  (put wallet_key (Wallets.row_of p w') db.wallets);
            conversions =
                put conversion_key
                  (Conversions.row_of p (completed_conversion p now c))
                  db.conversions;
          },
        ))
  settlement-success result now wallet_id outcome covered =
      let (w', e, becomes) =
        commit_reservation_lem p.decimal laws w c.source_amount h.wallet_storable.valid
          (amount_money p laws payload db c w h) covered in
      let (v', e', gains) =
        credit_lem p.decimal laws v c.target_amount k.wallet_storable.valid target_money
          (omega (arith, k.room)) in
      (
        w',
        becomes,
        v',
        gains,
        settlement_lem p laws payload db c w h result now wallet_id
            ∙ ap
                (λ o.
                  (apply_outcome p o now result.reason wallet_id c >>= λ applied.
                  pure (processed_result true))
                    (message_claimed p laws payload db c w h o))
                outcome
            ∙ bind_step _ _ (message_claimed p laws payload db c w h success)
                (success_written w' becomes.same_asset now result.reason wallet_id v' e e'),
      )
