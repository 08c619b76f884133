-- ===== src/Conversion/Repository/Refinement.antt =====
-- Conversions and their rows in prisma-conversion.repository.ts.
use wallet_conversion_engine.Prelude.{
  ◌^◌, ◌<◌, ◌≡◌, ◌≢◌, refl, true, none, some, eq_iff, arith, [], ◌∷◌, eq_refl,
}
use wallet_conversion_engine.Shared.Result.{ok}
use wallet_conversion_engine.Shared.Table.{string_eq, find, put, find-put_self, put-put}
use wallet_conversion_engine.Shared.Decimal.{IsDecimal}
use wallet_conversion_engine.Shared.Asset
use wallet_conversion_engine.Shared.Asset.{Asset, equals as same_asset}
use wallet_conversion_engine.Shared.Identifiers.{user_id_of, quote_id_of, conversion_id_of}
use wallet_conversion_engine.Shared.Money
use wallet_conversion_engine.Shared.Money.{Money, IsMoney, units_of}
use wallet_conversion_engine.Shared.Columns.{numeric, numeric_lem, of_decimal-numeric}
use wallet_conversion_engine.Shared.Platform.{Platform}
use wallet_conversion_engine.Conversion.Aggregate.{Conversion, construct}
use wallet_conversion_engine.Conversion.Repository.{
  ConversionRow, ConversionTable, conversion_key, lifecycle_allowed, row_allowed, quote_free,
  write_row, to_domain, row_of, upsert_row, save, found_conversion, find_by_id,
}

-- A conversion whose identity and amounts the columns can hold.
pub record IsStorable {D : Type 0} (p : Platform D) (c : Conversion D) : Type 0 where
  pub id_valid : conversion_id_of c.id ≡ ok c.id
  pub quote_valid : quote_id_of c.quote_id ≡ ok c.quote_id
  pub user_valid : user_id_of c.user_id ≡ ok c.user_id
  pub source_registered :
      Asset.of p.to_upper_case c.source_amount.asset.code p.registry ≡ ok c.source_amount.asset
  pub target_registered :
      Asset.of p.to_upper_case c.target_amount.asset.code p.registry ≡ ok c.target_amount.asset
  pub source_money : IsMoney p.decimal c.source_amount.asset c.source_amount
  pub target_money : IsMoney p.decimal c.target_amount.asset c.target_amount
  pub distinct : c.source_amount.asset.code ≢ c.target_amount.asset.code
  pub source_positive : 0 < units_of p.decimal c.source_amount
  pub target_positive : 0 < units_of p.decimal c.target_amount
  pub source_in_column : units_of p.decimal c.source_amount < 10 ^ 38
  pub target_in_column : units_of p.decimal c.target_amount < 10 ^ 38

-- conversions_lifecycle_check holds of the columns.
abbrev pub IsLawful : {D : Type 0} → Conversion D → Type 0
IsLawful c =
    lifecycle_allowed c.status c.exchange_execution_id c.completed_at c.failure_reason ≡ true

-- The later columns of a conversion may change, its identity and amounts not.
pub record SameIdentity {D : Type 0} (c d : Conversion D) : Type 0 where
  pub same_id : d.id ≡ c.id
  pub same_quote_id : d.quote_id ≡ c.quote_id
  pub same_user_id : d.user_id ≡ c.user_id
  pub same_source_amount : d.source_amount ≡ c.source_amount
  pub same_target_amount : d.target_amount ≡ c.target_amount
  pub same_created_at : d.created_at ≡ c.created_at

pub quote_free-put :
    (r : ConversionRow) (t : ConversionTable)
    → quote_free r.id r.quote_id t ≡ true
    → quote_free r.id r.quote_id (put conversion_key r t) ≡ true
unfolding quote_free put
quote_free-put r [] h = ground (arith, eq_refl r.id)
quote_free-put r (s ∷ t) h = ground (arith, eq_iff s.id r.id, eq_iff r.id r.id, quote_free-put r t)

module _ {D : Type 0} (p : Platform D) (laws : IsDecimal p.decimal) where
  upsert_lem :
      (old c : Conversion D)
      → SameIdentity old c
      → upsert_row p (row_of p c) (some (row_of p old)) ≡ row_of p c
  unfolding upsert_row row_of
  upsert_lem old c same = ground arith

  upsert_new : (r : ConversionRow) → upsert_row p r none ≡ r
  unfolding upsert_row
  upsert_new r = refl

  pub find-row_of :
      (c : Conversion D) (t : ConversionTable)
      → find conversion_key c.id (put conversion_key (row_of p c) t) ≡ some (row_of p c)
  unfolding row_of
  find-row_of c t = find-put_self conversion_key (row_of p c) t

  pub quote_free-row_of :
      (c : Conversion D) (t : ConversionTable)
      → quote_free c.id c.quote_id t ≡ true
      → quote_free c.id c.quote_id (put conversion_key (row_of p c) t) ≡ true
  unfolding row_of
  quote_free-row_of c t free = quote_free-put (row_of p c) t free

  pub put-row_of :
      (c d : Conversion D) (t : ConversionTable)
      → c.id ≡ d.id
      → put conversion_key (row_of p d) (put conversion_key (row_of p c) t)
        ≡ put conversion_key (row_of p d) t
  unfolding row_of
  put-row_of c d t same = put-put conversion_key (row_of p c) (row_of p d) t same

  module _ (c : Conversion D) (s : IsStorable p c) where
    pub construct_lem : construct c ≡ ok c
    unfolding construct
    construct_lem =
        ground (arith, s.distinct, eq_iff c.source_amount.asset.code c.target_amount.asset.code)

    source_back :
        Money.of_decimal p.decimal
          (p.decimal.of_numeric (numeric p c.source_amount))
          c.source_amount.asset
        ≡ ok c.source_amount
    source_back =
        of_decimal-numeric p laws c.source_amount s.source_money (omega (arith, s.source_in_column))

    target_back :
        Money.of_decimal p.decimal
          (p.decimal.of_numeric (numeric p c.target_amount))
          c.target_amount.asset
        ≡ ok c.target_amount
    target_back =
        of_decimal-numeric p laws c.target_amount s.target_money (omega (arith, s.target_in_column))

    -- A conversion that `save` wrote is read back as it was.
    pub to_domain-row_of : to_domain p (row_of p c) ≡ ok c
    unfolding to_domain row_of
    to_domain-row_of =
        rw
          (
            s.source_registered, s.target_registered, s.id_valid, s.quote_valid, s.user_valid,
            source_back, target_back,
          )
          construct_lem

    pub row_allowed-row_of : IsLawful c → row_allowed (row_of p c) ≡ true
    unfolding row_allowed row_of
    row_allowed-row_of lawful =
        rw
          (
            numeric_lem p laws c.source_amount s.source_money,
            numeric_lem p laws c.target_amount s.target_money,
          )
          (ground (
            arith,
            s.source_positive,
            s.target_positive,
            s.source_in_column,
            s.target_in_column,
            s.distinct,
            eq_iff c.source_amount.asset.code c.target_amount.asset.code,
          ))

    write_row_lem :
        (t : ConversionTable)
        → IsLawful c
        → quote_free c.id c.quote_id t ≡ true
        → write_row (row_of p c) t ≡ (ok (row_of p c), put conversion_key (row_of p c) t)
    unfolding write_row row_of
    write_row_lem t lawful free = rw (row_allowed-row_of lawful, free) refl

    -- A new conversion is inserted, where no other is for its quote.
    pub save_new :
        (t : ConversionTable)
        → IsLawful c
        → find conversion_key c.id t ≡ none
        → quote_free c.id c.quote_id t ≡ true
        → save p c t ≡ (ok tt, put conversion_key (row_of p c) t)
    unfolding save
    save_new t lawful fresh free =
        rw (fresh, upsert_new (row_of p c), write_row_lem t lawful free) refl

    -- A conversion that is stored is overwritten.
    pub save_again :
        (old : Conversion D) (t : ConversionTable)
        → IsLawful c
        → SameIdentity old c
        → find conversion_key c.id t ≡ some (row_of p old)
        → quote_free c.id c.quote_id t ≡ true
        → save p c t ≡ (ok tt, put conversion_key (row_of p c) t)
    unfolding save
    save_again old t lawful same found free =
        rw (found, upsert_lem old c same, write_row_lem t lawful free) refl

    pub find_by_id_lem :
        (t : ConversionTable)
        → find conversion_key c.id t ≡ some (row_of p c)
        → find_by_id p c.id t ≡ (ok (some c), t)
    unfolding find_by_id found_conversion
    find_by_id_lem t found = rw (found, to_domain-row_of) refl
