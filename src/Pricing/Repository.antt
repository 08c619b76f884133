-- ===== src/Pricing/Repository.antt =====
-- pricing/infrastructure/prisma-quote.repository.ts over the table `quotes`. A status column holds
-- a status that the source spells; the CHECK constraints are those of the migration
-- 20260806072000_harden_persistence_invariants.
pub mod Refinement
use wallet_conversion_engine.Prelude.{
  ℕ, ◌^◌, ◌≡◌, Bool, true, false, not, ◌&&◌, Option, none, some, List, String, str_eq, leb, ltb,
  if◌then◌else◌,
}
use wallet_conversion_engine.Shared.Result.{
  Result, ok, err, ◌>>=◌, ◌>>◌, throw_if, database_error, not_accepted, unexpected_quote_status,
}
use wallet_conversion_engine.Shared.Table.{string_eq, find, put}
use wallet_conversion_engine.Shared.Asset
use wallet_conversion_engine.Shared.Identifiers.{user_id_of, quote_id_of}
use wallet_conversion_engine.Shared.Money
use wallet_conversion_engine.Shared.Platform.{Platform}
use wallet_conversion_engine.Shared.Exec.{Exec, continue}
use wallet_conversion_engine.Shared.Columns.{numeric}
use wallet_conversion_engine.Pricing.ExchangeRate
use wallet_conversion_engine.Pricing.Quote
use wallet_conversion_engine.Pricing.Quote.{
  Quote, QuoteStatus, active, accepted, expired, is_active, reconstitute,
}

pub record QuoteRow : Type 0 where
  pub id : String
  pub user_id : String
  pub source_asset : String
  pub target_asset : String
  pub source_amount : ℕ
  pub target_amount : ℕ
  pub rate : ℕ
  pub status : QuoteStatus
  pub created_at : ℕ
  pub expires_at : ℕ
  pub accepted_at : Option ℕ

abbrev pub quote_key : QuoteRow → String
quote_key r = r.id

abbrev pub QuoteTable : Type 0
QuoteTable = List QuoteRow

-- quotes_lifecycle_check
abbrev pub lifecycle_allowed : QuoteStatus → Option ℕ → Bool
lifecycle_allowed active none = true
lifecycle_allowed accepted (some at) = true
lifecycle_allowed _ _ = false

-- quotes_positive_values_check, quotes_distinct_assets_check, quotes_lifecycle_check,
-- quotes_expiry_check and the 38 digits of the columns.
unfoldable pub row_allowed : QuoteRow → Bool
row_allowed r =
    ltb 0 r.source_amount
    && ltb 0 r.target_amount
    && ltb 0 r.rate
    && ltb r.source_amount (10 ^ 38)
    && ltb r.target_amount (10 ^ 38)
    && ltb r.rate (10 ^ 38)
    && not (str_eq r.source_asset r.target_asset)
    && lifecycle_allowed r.status r.accepted_at
    && ltb r.created_at r.expires_at

unfoldable pub write_row : QuoteRow → Exec QuoteTable QuoteRow
unfolding row_allowed
write_row r t = if row_allowed r then (ok r, put quote_key r t) else (err database_error, t)

-- The status that `toDomain` accepts.
abbrev pub is_persisted : QuoteStatus → Bool
is_persisted expired = false
is_persisted _ = true

module _ {D : Type 0} (p : Platform D) where
  -- `toDomain`
  unfoldable pub to_domain : QuoteRow → Result (Quote D)
  to_domain row = do
    source_asset ← Asset.of p.to_upper_case row.source_asset p.registry
    target_asset ← Asset.of p.to_upper_case row.target_asset p.registry
    throw_if (not (is_persisted row.status)) unexpected_quote_status
    id ← quote_id_of row.id
    user_id ← user_id_of row.user_id
    source_amount ← Money.of_decimal p.decimal (p.decimal.of_numeric row.source_amount) source_asset
    target_amount ← Money.of_decimal p.decimal (p.decimal.of_numeric row.target_amount) target_asset
    rate ←
        ExchangeRate.of_decimal p.decimal source_asset target_asset (p.decimal.of_numeric row.rate)
    reconstitute p.decimal (record {
      id = id;
      user_id = user_id;
      source_amount = source_amount;
      target_amount = target_amount;
      rate = rate;
      created_at = row.created_at;
      expires_at = row.expires_at;
      status = row.status;
      accepted_at = row.accepted_at;
    })

  -- The columns that `save` writes; `rate.toString()` is the text of all digits of the rate.
  unfoldable pub row_of : Quote D → QuoteRow
  row_of q = record {
    id = q.id;
    user_id = q.user_id;
    source_asset = q.source_amount.asset.code;
    target_asset = q.target_amount.asset.code;
    source_amount = numeric p q.source_amount;
    target_amount = numeric p q.target_amount;
    rate = p.decimal.to_numeric q.rate.rate (p.decimal.decimal_places q.rate.rate);
    status = q.status;
    created_at = q.created_at;
    expires_at = q.expires_at;
    accepted_at = q.accepted_at;
  }

  upsert_row : QuoteRow → Option QuoteRow → QuoteRow
  upsert_row r none = r
  upsert_row r (some old) = record old { status = r.status; accepted_at = r.accepted_at }

  -- `save`: an existing row keeps all but its status and its acceptance.
  unfoldable pub save : Quote D → Exec QuoteTable (Unit {0})
  unfolding row_of upsert_row
  save q t =
      continue (write_row (upsert_row (row_of q) (find quote_key q.id t)) t).0 (λ r t'. (ok tt, t'))
        (write_row (upsert_row (row_of q) (find quote_key q.id t)) t).1

  unfoldable pub found_quote : Option QuoteRow → Result (Option (Quote D))
  unfolding to_domain
  found_quote none = ok none
  found_quote (some row) = do q ← to_domain row; ok (some q)

  unfoldable pub find_by_id : String → Exec QuoteTable (Option (Quote D))
  unfolding found_quote
  find_by_id id t = (found_quote (find quote_key id t), t)

  -- `RETURNING …` and `toDomain(rows[0])`
  unfoldable pub returning : QuoteRow → Exec QuoteTable (Option (Quote D))
  unfolding to_domain write_row
  returning row t =
      continue (write_row row t).0 (λ r t'. (found_quote (some r), t')) (write_row row t).1

  accept_row : Option ℕ → ℕ → Option QuoteRow → Exec QuoteTable (Option (Quote D))
  accept_row accepted_at now none t = (ok none, t)
  accept_row accepted_at now (some row) t =
      if is_active row.status && leb now row.expires_at
      then returning (record row { status = accepted; accepted_at = accepted_at }) t
      else (ok none, t)

  -- `quote.status !== 'ACCEPTED' || quote.acceptedAt === null`
  is_unaccepted : Quote D → Bool
  is_unaccepted q = not (lifecycle_allowed q.status q.accepted_at && not (is_active q.status))

  -- `saveAccepted`
  unfoldable pub save_accepted : Quote D → ℕ → Exec QuoteTable (Option (Quote D))
  unfolding accept_row is_unaccepted
  save_accepted q now t =
      if is_unaccepted q
      then (err not_accepted, t)
      else accept_row q.accepted_at now (find quote_key q.id t) t
