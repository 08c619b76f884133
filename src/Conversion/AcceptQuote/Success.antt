-- ===== src/Conversion/AcceptQuote/Success.antt =====
-- What accepting a quote writes where nothing stands against it, and what it answers where the
-- wallet does not cover the quote.
use wallet_conversion_engine.Prelude.{
  ℕ, ◌+◌, ◌-◌, ◌≡◌, ◌≤◌, ◌<◌, refl, sym, ap, ◌∙◌, false, some, String, ◌==◌, arith, eq_refl,
}
use wallet_conversion_engine.Shared.Result.{
  Result, ok, err, accept_aborted, insufficient_available_balance_code,
}
use wallet_conversion_engine.Shared.Table.{string_eq, pair_eq, put, put-put, find-put_self}
use wallet_conversion_engine.Shared.Decimal.{IsDecimal}
use wallet_conversion_engine.Shared.Money.{IsMoney, units_of}
use wallet_conversion_engine.Shared.Money.Laws.{is_zero_lem}
use wallet_conversion_engine.Shared.Platform.{Platform}
use wallet_conversion_engine.Shared.Exec.{continue, ◌>>◌}
use wallet_conversion_engine.Wallet.Account.{WalletAccount, reserve}
use wallet_conversion_engine.Wallet.Account.Laws.{reserve_lem, reserve_insufficient, Becomes}
use wallet_conversion_engine.Wallet.Repository as Wallets
use wallet_conversion_engine.Wallet.Repository.{
  wallet_key, WalletTable, reserved_outcome, insufficient_or_conflict,
}
use wallet_conversion_engine.Wallet.Repository.Refinement.{reserve_refines}
use wallet_conversion_engine.Wallet.Repository.Refinement as WalletLaws
use wallet_conversion_engine.Pricing.Quote.{Quote, accept}
use wallet_conversion_engine.Pricing.Quote.Laws.{accept_iff}
use wallet_conversion_engine.Pricing.Repository as Quotes
use wallet_conversion_engine.Pricing.Repository.{quote_key}
use wallet_conversion_engine.Pricing.Repository.Refinement as QuoteLaws
use wallet_conversion_engine.Pricing.Repository.Refinement.{accepted_at_time}
use wallet_conversion_engine.Conversion.Aggregate.{
  Conversion, funds_reserved, create, mark_funds_reserved, bind_execution_event,
}
use wallet_conversion_engine.Conversion.Repository as Conversions
use wallet_conversion_engine.Conversion.Repository.{conversion_key, quote_free}
use wallet_conversion_engine.Conversion.Repository.Refinement as ConversionLaws
use wallet_conversion_engine.Conversion.Outbox.{
  outbox_key, create_conversion_execution_requested, enqueue,
}
use wallet_conversion_engine.Conversion.Idempotency.{idempotency_key_of, complete}
use wallet_conversion_engine.Conversion.Database.{
  Database, on_quotes_lem, on_wallets_lem, on_conversions_lem, on_outbox_lem, on_idempotency_lem,
  bind_step, bind_throw, bind_continue,
}
use wallet_conversion_engine.Conversion.AcceptQuote.{
  Attempt, created_result, failure, accept_quote_scope, accept_error, map_error, require_reserved,
  payload_of, body_of, response_of, finish_acceptance, start_conversion, claimed, work,
}
use wallet_conversion_engine.Conversion.AcceptQuote.Atomicity.{claim, work_fresh}
use wallet_conversion_engine.Conversion.AcceptQuote.Acceptable.{
  Acceptable, new_conversion, started_conversion, request_event, claim_row, answer_row,
  new-IsStorable, started-IsStorable,
}

positive : (n : ℕ) → 0 < n → (n == 0) ≡ false
positive n h = ground arith

module _ {D : Type 0} (p : Platform D) (laws : IsDecimal p.decimal) (a : Attempt) (q : Quote D)
    (db : Database) (w : WalletAccount D) (h : Acceptable p a db q w) where
  -- The database after the quote is accepted.
  abbrev pub quote_accepted : Database
  quote_accepted = record (claim p a db) {
    quotes = put quote_key (Quotes.row_of p (accepted_at_time p laws a.now q)) db.quotes;
  }

  accept_succeeds : accept a.now q ≡ ok (accepted_at_time p laws a.now q)
  accept_succeeds = (accept_iff a.now q (rw h.quote_active cc)).1 (h.quote_active, h.in_time)

  save_accepted_succeeds :
      Quotes.save_accepted p (accepted_at_time p laws a.now q) a.now db.quotes ≡ (
        ok (some (accepted_at_time p laws a.now q)),
        put quote_key (Quotes.row_of p (accepted_at_time p laws a.now q)) db.quotes,
      )
  save_accepted_succeeds =
      QuoteLaws.save_accepted_refines p laws a.now q (accepted_at_time p laws a.now q) q db.quotes
        h.quote_storable refl accept_succeeds h.quote_stored
      ∙ ap (λ answer. QuoteLaws.saved p laws answer db.quotes) accept_succeeds

  claimed_lem :
      claimed p a (claim p a db)
      ≡ start_conversion p a (accepted_at_time p laws a.now q) quote_accepted
  unfolding claimed
  claimed_lem =
      bind_step _ _ (claim p a db) (ap (λ r. (r, claim p a db)) h.names_quote)
      ∙ bind_step _ _ (claim p a db) (
          on_quotes_lem (claim p a db) _
            (QuoteLaws.find_by_id_lem p laws q h.quote_storable db.quotes h.quote_stored))
      ∙ bind_step _ _ (claim p a db) refl
      ∙ bind_step _ _ (claim p a db)
          (ap (λ r. (map_error accept_error r, claim p a db)) accept_succeeds)
      ∙ bind_step _ _ (claim p a db) (on_quotes_lem (claim p a db) _ save_accepted_succeeds)
      ∙ bind_step _ _ quote_accepted refl

  create_succeeds :
      create p.decimal a.conversion_id q.id q.user_id q.source_amount q.target_amount a.now
      ≡ ok (new_conversion p a q)
  unfolding create
  create_succeeds =
      let s = h.quote_storable in
      rw
        (
          is_zero_lem p.decimal laws q.source_amount s.source_money,
          is_zero_lem p.decimal laws q.target_amount s.target_money,
          positive (units_of p.decimal q.source_amount) s.source_positive,
          positive (units_of p.decimal q.target_amount) s.target_positive,
        )
        (ConversionLaws.construct_lem p laws (new_conversion p a q)
          (new-IsStorable p a q s h.conversion_id_valid))

  -- The database after the conversion is stored.
  abbrev pub conversion_stored : Database
  conversion_stored = record quote_accepted {
    conversions = put conversion_key (Conversions.row_of p (new_conversion p a q)) db.conversions;
  }

  save_succeeds :
      Conversions.save p (new_conversion p a q) db.conversions
      ≡ (ok tt, put conversion_key (Conversions.row_of p (new_conversion p a q)) db.conversions)
  save_succeeds =
      ConversionLaws.save_new p laws (new_conversion p a q)
        (new-IsStorable p a q h.quote_storable h.conversion_id_valid) db.conversions refl
        h.conversion_new h.quote_unused

  amount_money : IsMoney p.decimal w.asset q.source_amount
  amount_money = rw h.same_asset h.quote_storable.source_money

  reserve_outcome_lem :
      Wallets.reserve p q.user_id q.source_amount.asset.code q.source_amount db.wallets
      ≡ WalletLaws.reserve_outcome p laws w q.source_amount db.wallets h.wallet_storable
          amount_money h.wallet_stored
          (reserve p.decimal w q.source_amount)
  reserve_outcome_lem =
      ap (λ (k : String × String). Wallets.reserve p k.0 k.1 q.source_amount db.wallets)
        (ap (λ u. (u, q.source_amount.asset.code)) (sym h.same_user)
          ∙ ap (λ c. (w.user_id, c.code)) (sym h.same_asset))
      ∙ reserve_refines p laws w q.source_amount db.wallets h.wallet_storable amount_money
          h.wallet_stored

  -- Up to the reservation.
  start_lem :
      (r : Result (Wallets.ReservationOutcome D)) (t : WalletTable)
      → Wallets.reserve p q.user_id q.source_amount.asset.code q.source_amount db.wallets ≡ (r, t)
      → start_conversion p a (accepted_at_time p laws a.now q) quote_accepted
        ≡ continue r
            (λ o.
              require_reserved o
              >> finish_acceptance p a (accepted_at_time p laws a.now q) (new_conversion p a q))
            (record conversion_stored { wallets = t })
  unfolding start_conversion
  start_lem r t reservation =
      bind_step _ _ quote_accepted (ap (λ i. (i, quote_accepted)) h.conversion_id_valid)
      ∙ bind_step _ _ quote_accepted (ap (λ c. (c, quote_accepted)) create_succeeds)
      ∙ bind_step _ _ quote_accepted (on_conversions_lem quote_accepted _ save_succeeds)
      ∙ bind_continue _ _ conversion_stored (on_wallets_lem conversion_stored _ reservation)

  -- The database after the acceptance, for the row of the wallet after the reservation.
  abbrev pub after_acceptance : WalletTable → Database
  after_acceptance wallets = record db {
    quotes = put quote_key (Quotes.row_of p (accepted_at_time p laws a.now q)) db.quotes;
    wallets = wallets;
    conversions =
        put conversion_key (Conversions.row_of p (started_conversion p a q)) db.conversions;
    outbox = put outbox_key (request_event p a q) db.outbox;
    idempotency = put idempotency_key_of (answer_row p a q) db.idempotency;
  }

  reserved_conversion : Conversion D
  reserved_conversion = record (new_conversion p a q) { status = funds_reserved }

  mark_succeeds : mark_funds_reserved (new_conversion p a q) ≡ ok reserved_conversion
  unfolding mark_funds_reserved reserved_conversion
  mark_succeeds = refl

  bind_succeeds :
      bind_execution_event a.event_id reserved_conversion ≡ ok (started_conversion p a q)
  unfolding bind_execution_event reserved_conversion
  bind_succeeds = rw h.event_id_valid refl

  save_again_succeeds :
      Conversions.save p
        (started_conversion p a q)
        (put conversion_key (Conversions.row_of p (new_conversion p a q)) db.conversions)
      ≡ (ok tt, put conversion_key (Conversions.row_of p (started_conversion p a q)) db.conversions)
  save_again_succeeds =
      let old : Conversions.ConversionRow = Conversions.row_of p (new_conversion p a q) in
      ConversionLaws.save_again p laws (started_conversion p a q)
        (started-IsStorable p a q h.quote_storable h.conversion_id_valid) (new_conversion p a q)
        (put conversion_key old db.conversions) refl
        (record {
          same_id = refl;
          same_quote_id = refl;
          same_user_id = refl;
          same_source_amount = refl;
          same_target_amount = refl;
          same_created_at = refl;
        })
        (ConversionLaws.find-row_of p laws (new_conversion p a q) db.conversions)
        (ConversionLaws.quote_free-row_of p laws (new_conversion p a q) db.conversions
          h.quote_unused)
      ∙ ap (λ t. (ok tt, t))
          (ConversionLaws.put-row_of p laws (new_conversion p a q) (started_conversion p a q)
            db.conversions refl)

  message_succeeds :
      create_conversion_execution_requested a.event_id
        (payload_of p a (accepted_at_time p laws a.now q) (started_conversion p a q))
        a.now
      ≡ ok (request_event p a q)
  unfolding create_conversion_execution_requested
  message_succeeds = rw eq_refl refl

  enqueue_succeeds :
      enqueue (request_event p a q) db.outbox
      ≡ (ok tt, put outbox_key (request_event p a q) db.outbox)
  unfolding enqueue
  enqueue_succeeds = rw h.event_new refl

  complete_succeeds :
      complete accept_quote_scope a.idempotency_key
        (response_of p q (started_conversion p a q))
        (put idempotency_key_of (claim_row p a) db.idempotency)
      ≡ (ok tt, put idempotency_key_of (answer_row p a q) db.idempotency)
  unfolding complete
  complete_succeeds =
      rw
        (
          find-put_self idempotency_key_of (claim_row p a) db.idempotency,
          put-put idempotency_key_of (claim_row p a) (answer_row p a q) db.idempotency refl,
        )
        refl

  -- After the reservation.
  finish_lem :
      (wallets : WalletTable)
      → finish_acceptance p a
          (accepted_at_time p laws a.now q)
          (new_conversion p a q)
          (record conversion_stored { wallets = wallets })
        ≡ (ok (created_result (body_of p q (started_conversion p a q))), after_acceptance wallets)
  unfolding finish_acceptance
  finish_lem wallets =
      let db1 : Database = record conversion_stored { wallets = wallets } in
      let db2 : Database = record db1 { conversions = (after_acceptance wallets).conversions } in
      let db3 : Database = record db2 { outbox = (after_acceptance wallets).outbox } in
      bind_step _ _ db1 (ap (λ c. (c, db1)) mark_succeeds)
      ∙ bind_step _ _ db1 (ap (λ c. (c, db1)) bind_succeeds)
      ∙ bind_step _ _ db1 (on_conversions_lem db1 _ save_again_succeeds)
      ∙ bind_step _ _ db2 (ap (λ m. (m, db2)) message_succeeds)
      ∙ bind_step _ _ db2 (on_outbox_lem db2 _ enqueue_succeeds)
      ∙ bind_step _ _ db3 (on_idempotency_lem db3 _ complete_succeeds)

  -- The transaction, where the wallet covers the quote.
  pub work_accepts :
      units_of p.decimal q.source_amount ≤ units_of p.decimal w.available
      → (w' : WalletAccount D) × Becomes p.decimal w
          (units_of p.decimal w.balance)
          (units_of p.decimal w.available - units_of p.decimal q.source_amount)
          (units_of p.decimal w.reserved + units_of p.decimal q.source_amount)
          w'
        × (work p a db ≡ (
          ok (created_result (body_of p q (started_conversion p a q))),
          after_acceptance (put wallet_key (Wallets.row_of p w') db.wallets),
        ))
  work_accepts covered =
      let (w', e, becomes) =
        reserve_lem p.decimal laws w q.source_amount h.wallet_storable.valid amount_money covered in
      let written : WalletTable = put wallet_key (Wallets.row_of p w') db.wallets in
      let reservation : Wallets.reserve p q.user_id q.source_amount.asset.code q.source_amount
            db.wallets
          ≡ (ok (reserved_outcome w'), written) =
        reserve_outcome_lem ∙ rw e refl in
      (
        w',
        becomes,
        work_fresh p a db h.key_new
            ∙ claimed_lem
            ∙ start_lem _ _ reservation
            ∙ bind_step _ _ (record conversion_stored { wallets = written }) refl
            ∙ finish_lem written,
      )

  -- The transaction, where it does not.
  pub work_insufficient :
      units_of p.decimal w.available < units_of p.decimal q.source_amount
      → (work p a db).0 ≡ err (accept_aborted (failure 409 insufficient_available_balance_code))
  work_insufficient short =
      let refused : Wallets.reserve p q.user_id q.source_amount.asset.code q.source_amount
            db.wallets
          ≡ (ok insufficient_or_conflict, db.wallets) =
        reserve_outcome_lem
        ∙ rw
            (reserve_insufficient p.decimal laws w q.source_amount h.wallet_storable.valid
              amount_money short)
            refl in
      ap (λ o. o.0)
        (work_fresh p a db h.key_new
          ∙ claimed_lem
          ∙ start_lem _ _ refused
          ∙ bind_throw _ _ (record conversion_stored { wallets = db.wallets }) refl)
