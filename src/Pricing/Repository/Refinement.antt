-- ===== src/Pricing/Repository/Refinement.antt =====
-- The statements of prisma-quote.repository.ts, compared with the methods of
-- pricing/domain/quote.ts.
use native.Mathlib.Nat.{le_refl}
use wallet_conversion_engine.Prelude.{
  ℕ, ◌^◌, ◌<◌, ◌≡◌, ◌≢◌, refl, sym, ap, ◌∙◌, true, false, ◌&&◌, Option, none, some, eq_iff, arith,
  leb, if◌then◌else◌, Bool-cases, inl, inr,
}
use wallet_conversion_engine.Shared.Result.{
  Error, Result, ok, err, ◌>>=◌, quote_expired, quote_already_accepted,
}
use wallet_conversion_engine.Shared.Table.{string_eq, find, put, find-put_self}
use wallet_conversion_engine.Shared.Decimal.{IsDecimal}
use wallet_conversion_engine.Shared.Asset
use wallet_conversion_engine.Shared.Asset.{Asset, equals as same_asset}
use wallet_conversion_engine.Shared.Identifiers.{user_id_of, quote_id_of}
use wallet_conversion_engine.Shared.Money
use wallet_conversion_engine.Shared.Money.{Money, IsMoney, units_of}
use wallet_conversion_engine.Shared.Money.Laws.{is_zero_lem}
use wallet_conversion_engine.Shared.Money.Convert.{IsRate, is_bad_rate_lem}
use wallet_conversion_engine.Shared.Columns.{numeric, numeric_lem, of_decimal-numeric}
use wallet_conversion_engine.Shared.Platform.{Platform}
use wallet_conversion_engine.Pricing.ExchangeRate
use wallet_conversion_engine.Pricing.ExchangeRate.{ExchangeRate}
use wallet_conversion_engine.Pricing.Quote.{
  Quote, QuoteStatus, accepted, is_active, construct, reconstitute, restored_status, accept,
}
use wallet_conversion_engine.Pricing.Repository.{
  QuoteTable, quote_key, lifecycle_allowed, row_allowed, write_row, is_persisted, to_domain, row_of,
  found_quote, returning, find_by_id, save_accepted, save,
}

-- A quote that the columns can hold: identifiers and assets are read back as they are.
pub record IsStorable {D : Type 0} (p : Platform D) (q : Quote D) : Type 0 where
  pub id_valid : quote_id_of q.id ≡ ok q.id
  pub user_valid : user_id_of q.user_id ≡ ok q.user_id
  pub source_registered :
      Asset.of p.to_upper_case q.source_amount.asset.code p.registry ≡ ok q.source_amount.asset
  pub target_registered :
      Asset.of p.to_upper_case q.target_amount.asset.code p.registry ≡ ok q.target_amount.asset
  pub source_money : IsMoney p.decimal q.source_amount.asset q.source_amount
  pub target_money : IsMoney p.decimal q.target_amount.asset q.target_amount
  pub rate_source : q.rate.source_asset ≡ q.source_amount.asset
  pub rate_target : q.rate.target_asset ≡ q.target_amount.asset
  pub rate_valid : IsRate p.decimal 18 q.rate.rate
  pub distinct : q.source_amount.asset.code ≢ q.target_amount.asset.code
  pub source_positive : 0 < units_of p.decimal q.source_amount
  pub target_positive : 0 < units_of p.decimal q.target_amount
  pub source_in_column : units_of p.decimal q.source_amount < 10 ^ 38
  pub target_in_column : units_of p.decimal q.target_amount < 10 ^ 38
  pub rate_in_column : p.decimal.units q.rate.rate < 10 ^ 38
  pub lifecycle : lifecycle_allowed q.status q.accepted_at ≡ true
  pub lasts : q.created_at < q.expires_at

module _ {D : Type 0} (p : Platform D) (laws : IsDecimal p.decimal) where
  module _ (q : Quote D) (s : IsStorable p q) where
    rate_numeric :
        p.decimal.to_numeric q.rate.rate (p.decimal.decimal_places q.rate.rate)
        ≡ p.decimal.units q.rate.rate
    rate_numeric =
        let f = s.rate_valid.fits in
        laws.to_numeric-eq-units (p.decimal.decimal_places q.rate.rate) q.rate.rate f.places
          (record { finite = f.finite; nonnegative = f.nonnegative; places = le_refl _ })

    rate_of_numeric : p.decimal.of_numeric (p.decimal.units q.rate.rate) ≡ q.rate.rate
    rate_of_numeric =
        let bound : p.decimal.units q.rate.rate < 10 ^ 40 = omega (arith, s.rate_in_column) in
        laws.eq_of_units _ _ (laws.of_numeric-Fits (p.decimal.units q.rate.rate) bound)
          s.rate_valid.fits (laws.units-of_numeric (p.decimal.units q.rate.rate) bound)

    rate_back :
        ExchangeRate.of_decimal p.decimal q.source_amount.asset q.target_amount.asset q.rate.rate
        ≡ ok q.rate
    unfolding ExchangeRate.of_decimal
    rate_back = ground (
      arith,
      eq_iff q.source_amount.asset.code q.target_amount.asset.code,
      s.distinct,
      s.rate_source,
      s.rate_target,
      is_bad_rate_lem p.decimal laws 18 q.rate.rate s.rate_valid,
    )

    construct_lem : construct p.decimal q ≡ ok q
    unfolding construct
    construct_lem = ground (
      arith,
      s.lifecycle,
      s.lasts,
      s.rate_source,
      s.rate_target,
      eq_iff q.source_amount.asset.code q.rate.source_asset.code,
      eq_iff q.target_amount.asset.code q.rate.target_asset.code,
      is_zero_lem p.decimal laws q.source_amount s.source_money,
      s.source_positive,
    )

    restored_lem : (restored_status q.status ≡ q.status) × (is_persisted q.status ≡ true)
    restored_lem = ground (arith, s.lifecycle)

    source_back :
        Money.of_decimal p.decimal
          (p.decimal.of_numeric (numeric p q.source_amount))
          q.source_amount.asset
        ≡ ok q.source_amount
    source_back =
        of_decimal-numeric p laws q.source_amount s.source_money (omega (arith, s.source_in_column))

    target_back :
        Money.of_decimal p.decimal
          (p.decimal.of_numeric (numeric p q.target_amount))
          q.target_amount.asset
        ≡ ok q.target_amount
    target_back =
        of_decimal-numeric p laws q.target_amount s.target_money (omega (arith, s.target_in_column))

    -- A quote that `save` wrote is read back as it was.
    pub to_domain-row_of : to_domain p (row_of p q) ≡ ok q
    unfolding to_domain row_of reconstitute
    to_domain-row_of =
        rw
          (
            s.source_registered, s.target_registered, restored_lem.1, s.id_valid, s.user_valid,
            source_back, target_back, rate_numeric, rate_of_numeric, rate_back, restored_lem.0,
          )
          construct_lem

    pub row_allowed-row_of : row_allowed (row_of p q) ≡ true
    unfolding row_allowed row_of
    row_allowed-row_of =
        rw
          (
            rate_numeric,
            numeric_lem p laws q.source_amount s.source_money,
            numeric_lem p laws q.target_amount s.target_money,
          )
          (ground (
            arith,
            s.lifecycle,
            s.lasts,
            s.source_positive,
            s.target_positive,
            s.source_in_column,
            s.target_in_column,
            s.rate_in_column,
            s.rate_valid.positive,
            s.distinct,
            eq_iff q.source_amount.asset.code q.target_amount.asset.code,
          ))

    -- Writing the row of a storable quote succeeds, and returns that quote.
    pub returning_lem :
        (t : QuoteTable) → returning p (row_of p q) t ≡ (ok (some q), put quote_key (row_of p q) t)
    unfolding returning write_row found_quote
    returning_lem t = rw (row_allowed-row_of, if◌then◌else◌) (rw (to_domain-row_of, ◌>>=◌) refl)

    -- What is found under the id of a stored quote is that quote.
    pub find_by_id_lem :
        (t : QuoteTable)
        → find quote_key q.id t ≡ some (row_of p q)
        → find_by_id p q.id t ≡ (ok (some q), t)
    unfolding find_by_id found_quote
    find_by_id_lem t found = rw (found, to_domain-row_of) refl

    find-row_of :
        (t : QuoteTable) → find quote_key q.id (put quote_key (row_of p q) t) ≡ some (row_of p q)
    unfolding row_of
    find-row_of t = find-put_self quote_key (row_of p q) t

    -- A new quote that is saved is found again, unchanged.
    pub find_by_id-save :
        (t : QuoteTable)
        → find quote_key q.id t ≡ none
        → (save p q t ≡ (ok tt, put quote_key (row_of p q) t))
          × (find_by_id p q.id (put quote_key (row_of p q) t)
              ≡ (ok (some q), put quote_key (row_of p q) t))
    unfolding save write_row
    find_by_id-save t fresh = (
      rw (fresh, row_allowed-row_of) refl,
      find_by_id_lem (put quote_key (row_of p q) t) (find-row_of t),
    )

  -- The quote that `accept` makes of a storable quote.
  abbrev pub accepted_at_time : ℕ → Quote D → Quote D
  accepted_at_time now q = record q { status = accepted; accepted_at = some now }

  pub accept-IsStorable :
      (now : ℕ) (q : Quote D) → IsStorable p q → IsStorable p (accepted_at_time now q)
  accept-IsStorable now q s = record {
    id_valid = s.id_valid;
    user_valid = s.user_valid;
    source_registered = s.source_registered;
    target_registered = s.target_registered;
    source_money = s.source_money;
    target_money = s.target_money;
    rate_source = s.rate_source;
    rate_target = s.rate_target;
    rate_valid = s.rate_valid;
    distinct = s.distinct;
    source_positive = s.source_positive;
    target_positive = s.target_positive;
    source_in_column = s.source_in_column;
    target_in_column = s.target_in_column;
    rate_in_column = s.rate_in_column;
    lifecycle = refl;
    lasts = s.lasts;
  }

  row_status :
      (q : Quote D) → ((row_of p q).status ≡ q.status) × ((row_of p q).expires_at ≡ q.expires_at)
  unfolding row_of
  row_status q = (refl, refl)

  row_accepted :
      (now : ℕ) (q : Quote D)
      → record (row_of p q) { status = accepted; expires_at = q.expires_at; accepted_at = some now }
        ≡ row_of p (accepted_at_time now q)
  unfolding row_of
  row_accepted now q = refl

  save_accepted_row :
      (now : ℕ) (q stored : Quote D) (t : QuoteTable)
      → IsStorable p stored
      → q.id ≡ stored.id
      → find quote_key stored.id t ≡ some (row_of p stored)
      → save_accepted p (accepted_at_time now q) now t ≡ (
          if is_active stored.status && leb now stored.expires_at
          then (
            ok (some (accepted_at_time now stored)),
            put quote_key (row_of p (accepted_at_time now stored)) t,
          )
          else (ok none, t))
  unfolding save_accepted
  save_accepted_row now q stored t s same found =
      elim (Bool-cases (is_active stored.status && leb now stored.expires_at)) [
        | inl open_quote ↦
            rw (same, found, (row_status stored).0, (row_status stored).1, open_quote)
              (rw (row_accepted now stored)
                (returning_lem (accepted_at_time now stored) (accept-IsStorable now stored s) t))
        | inr closed ↦ rw (same, found, (row_status stored).0, (row_status stored).1, closed) refl
      ]

  accept-ok : (now : ℕ) (q a : Quote D) → accept now q ≡ ok a → a ≡ accepted_at_time now q
  unfolding accept
  accept-ok now q a h = ground arith

  -- A status that the columns can hold is not EXPIRED.
  accept-open :
      (now : ℕ) (q : Quote D)
      → (is_active q.status && leb now q.expires_at) ≡ true
      → accept now q ≡ ok (accepted_at_time now q)
  unfolding accept
  accept-open now q h = ground arith

  abbrev refusal : QuoteStatus → Error
  refusal accepted = quote_already_accepted
  refusal _ = quote_expired

  accept-closed :
      (now : ℕ) (q : Quote D)
      → lifecycle_allowed q.status q.accepted_at ≡ true
      → (is_active q.status && leb now q.expires_at) ≡ false
      → accept now q ≡ err (refusal q.status)
  unfolding accept
  accept-closed now q lawful h = ground arith

  -- What is returned and stored where the method answers for the stored quote.
  abbrev pub saved : Result (Quote D) → QuoteTable → Result (Option (Quote D)) × QuoteTable
  saved (ok q) t = (ok (some q), put quote_key (row_of p q) t)
  saved (err problem) t = (ok none, t)

  -- For a quote that `accept` has made of the quote as it was read, and a quote that is stored under
  -- its id by then and that the columns can hold, `saveAccepted` does to the row what
  -- `accept` does to the stored quote: where that returns a quote, this quote is stored and
  -- returned, and where it throws, for what another request wrote in between, `saveAccepted`
  -- returns null and writes nothing.
  pub save_accepted_refines :
      (now : ℕ) (q attempt stored : Quote D) (t : QuoteTable)
      → IsStorable p stored
      → q.id ≡ stored.id
      → accept now q ≡ ok attempt
      → find quote_key stored.id t ≡ some (row_of p stored)
      → save_accepted p attempt now t ≡ saved (accept now stored) t
  save_accepted_refines now q attempt stored t s same ok_q found =
      ap (λ a. save_accepted p a now t) (accept-ok now q attempt ok_q)
      ∙ save_accepted_row now q stored t s same found
      ∙ elim (Bool-cases (is_active stored.status && leb now stored.expires_at)) [
        | inl open_quote ↦
            rw (open_quote, if◌then◌else◌)
              (ap (λ answer. saved answer t) (sym (accept-open now stored open_quote)))
        | inr closed ↦
            rw (closed, if◌then◌else◌)
              (ap (λ answer. saved answer t) (sym (accept-closed now stored s.lifecycle closed)))
      ]
