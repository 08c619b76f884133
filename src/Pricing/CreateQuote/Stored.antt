-- ===== src/Pricing/CreateQuote/Stored.antt =====
-- What pricing/application/create-quote.use-case.ts offers and stores.
use mathlib.Core.Path.{subst}
use Prim.Native.String.{◌++◌}
use wallet_conversion_engine.Prelude.{
  ℕ, ◌+◌, ◌*◌, ◌-◌, ◌^◌, ◌≤◌, ◌<◌, ◌≡◌, ◌≢◌, refl, sym, ap, ◌∙◌, none, some, String, arith, eq_iff,
}
use wallet_conversion_engine.Shared.Result.{ok, empty_user_id}
use wallet_conversion_engine.Shared.Table.{string_eq, find, put}
use wallet_conversion_engine.Shared.Decimal.{IsDecimal, Fits}
use wallet_conversion_engine.Shared.Asset
use wallet_conversion_engine.Shared.Asset.{Asset, whole, equals as same_asset}
use wallet_conversion_engine.Shared.Identifiers.{user_id_of, quote_id_of, identifier_of_idem}
use wallet_conversion_engine.Shared.Money
use wallet_conversion_engine.Shared.Money.{Money, IsMoney, units_of}
use wallet_conversion_engine.Shared.Money.Convert.{IsRate, is_bad_rate_lem}
use wallet_conversion_engine.Shared.Money.Laws.{of_decimal_lem}
use wallet_conversion_engine.Shared.Platform.{Platform}
use wallet_conversion_engine.Pricing.ExchangeRate.{ExchangeRate, fixed_rate, get_rate, of_decimal}
use wallet_conversion_engine.Pricing.Quote.{Quote, quote_ttl_seconds, create}
use wallet_conversion_engine.Pricing.Quote.Laws.{IsRequest, IsOffer, create_lem}
use wallet_conversion_engine.Pricing.Repository.{QuoteTable, quote_key, row_of, find_by_id}
use wallet_conversion_engine.Pricing.Repository.Refinement.{IsStorable, find_by_id-save}
use wallet_conversion_engine.Pricing.CreateQuote.{CreateQuoteCommand, quote_of_command, execute}

module _ {D : Type 0} (p : Platform D) where
  -- A command of a user for two assets of the registry, with a price for the pair and an amount whose
  -- exact product with the price is at least one last place of the target asset and fits the numbers
  -- and the columns.
  pub record IsAnswerable (command : CreateQuoteCommand) (generated : String) : Type 0 where
    pub user_id : String
    pub source : Asset
    pub target : Asset
    pub amount : D
    pub price_text : String
    pub price : D
    pub user_valid : user_id_of command.user_id ≡ ok user_id
    pub id_valid : quote_id_of generated ≡ ok generated
    pub source_known : Asset.of p.to_upper_case command.source_asset p.registry ≡ ok source
    pub target_known : Asset.of p.to_upper_case command.target_asset p.registry ≡ ok target
    pub source_registered : Asset.of p.to_upper_case source.code p.registry ≡ ok source
    pub target_registered : Asset.of p.to_upper_case target.code p.registry ≡ ok target
    pub distinct : source.code ≢ target.code
    pub source_storable : source.scale ≤ 18
    pub target_storable : target.scale ≤ 18
    pub amount_read : p.decimal.parse command.source_amount ≡ some amount
    pub amount_fits : Fits p.decimal source.scale amount
    pub positive : 0 < p.decimal.units amount
    pub in_column : p.decimal.units amount < 10 ^ 38
    pub priced : fixed_rate p.decimal (source.code ++ "->" ++ target.code) ≡ some price_text
    pub price_read : p.decimal.parse price_text ≡ some price
    pub price_valid : IsRate p.decimal 18 price
    pub price_in_column : p.decimal.units price < 10 ^ 38
    pub precise : p.decimal.units amount * p.decimal.units price < 10 ^ (76 - (source.scale + 18))
    pub small : p.decimal.units amount * p.decimal.units price < 10 ^ 56
    pub enough : 10 ^ (18 - target.scale) * 10 ^ 18 ≤ p.decimal.units amount * p.decimal.units price

module _ {D : Type 0} (p : Platform D) (laws : IsDecimal p.decimal) (command : CreateQuoteCommand)
    (generated : String) (h : IsAnswerable p command generated) where
  abbrev pub amount_of : Money D
  amount_of = record { amount = h.amount; asset = h.source }

  abbrev pub rate_of : ExchangeRate D
  rate_of = record { source_asset = h.source; target_asset = h.target; rate = h.price }

  amount_of-IsMoney : IsMoney p.decimal h.source amount_of
  amount_of-IsMoney = record { of_asset = refl; fits = h.amount_fits; storable = h.source_storable }

  pub rate_of-IsRequest : IsRequest p.decimal amount_of rate_of 18
  rate_of-IsRequest = record {
    source_money = amount_of-IsMoney;
    rate_valid = h.price_valid;
    target_storable = h.target_storable;
    positive = h.positive;
    precise = h.precise;
  }

  get_rate_lem : get_rate p.decimal h.source h.target ≡ ok rate_of
  unfolding get_rate of_decimal same_asset
  get_rate_lem =
      rw (h.priced, h.price_read, is_bad_rate_lem p.decimal laws 18 h.price h.price_valid)
        (ground (arith, h.distinct, eq_iff h.source.code h.target.code))

  of_text_lem : Money.of_text p.decimal command.source_amount h.source ≡ ok amount_of
  unfolding Money.of_text
  of_text_lem =
      rw h.amount_read (of_decimal_lem p.decimal laws {asset = h.source} h.amount h.amount_fits)

  create-default :
      (now : ℕ)
      → create p.decimal generated h.user_id amount_of rate_of now none
        ≡ create p.decimal generated h.user_id amount_of rate_of now
            (some (whole quote_ttl_seconds))
  unfolding create
  create-default now = refl

  -- What the offer promises of a quote.
  abbrev pub Offered : ℕ → Quote D → Type 0
  Offered now q =
      IsOffer p.decimal laws amount_of rate_of 18 rate_of-IsRequest generated h.user_id now
        quote_ttl_seconds q

  quote_of_command_lem :
      (now : ℕ) (q : Quote D)
      → create p.decimal generated h.user_id amount_of rate_of now (some (whole quote_ttl_seconds))
        ≡ ok q
      → quote_of_command p command generated now ≡ ok q
  unfolding quote_of_command
  quote_of_command_lem now q e =
      rw (h.user_valid, h.source_known, h.target_known, of_text_lem, get_rate_lem, h.id_valid)
        (create-default now ∙ e)

  Offered-IsStorable : (now : ℕ) (q : Quote D) → Offered now q → IsStorable p q
  Offered-IsStorable now q o =
      let target_asset = o.target_money.of_asset in
      let source_asset = ap (λ (m : Money D). m.asset) o.same_source in
      let never_more : units_of p.decimal q.target_amount * 10 ^ 18
          ≤ p.decimal.units h.amount * p.decimal.units h.price =
        o.never_more in
      let small = h.small in
      record {
        id_valid = rw o.same_id h.id_valid;
        user_valid =
            rw o.same_user
              (identifier_of_idem empty_user_id empty_user_id command.user_id h.user_valid);
        source_registered = rw o.same_source h.source_registered;
        target_registered = rw target_asset h.target_registered;
        source_money = rw o.same_source amount_of-IsMoney;
        target_money =
            subst (λ a. IsMoney p.decimal a q.target_amount) (sym target_asset) o.target_money;
        rate_source = ap (λ (r : ExchangeRate D). r.source_asset) o.same_rate ∙ sym source_asset;
        rate_target = ap (λ (r : ExchangeRate D). r.target_asset) o.same_rate ∙ sym target_asset;
        rate_valid = rw o.same_rate h.price_valid;
        distinct = λ same. h.distinct (
            sym (ap (λ (a : Asset). a.code) source_asset)
            ∙ same
            ∙ ap (λ (a : Asset). a.code) target_asset);
        source_positive = rw o.same_source h.positive;
        target_positive = o.target_positive;
        source_in_column = rw o.same_source h.in_column;
        target_in_column = omega arith;
        rate_in_column = rw o.same_rate h.price_in_column;
        lifecycle = rw (o.is_active, o.not_accepted) refl;
        lasts = rw (o.expiry, o.same_created_at) (omega arith);
      }

  -- An answerable command on a new id is answered by a quote that keeps the promises of an offer, for
  -- the time to live that the code sets, and the quote is in the table under its id, as it was
  -- returned.
  pub execute-Offered :
      (now : ℕ) (t : QuoteTable)
      → find quote_key generated t ≡ none
      → (q : Quote D) × (t' : QuoteTable) × (execute p command generated now t ≡ (ok q, t'))
        × Offered now q
        × (find_by_id p generated t' ≡ (ok (some q), t'))
  unfolding execute
  execute-Offered now t fresh =
      let (q, created, offered) =
        create_lem p.decimal laws amount_of rate_of 18 rate_of-IsRequest generated h.user_id now
          quote_ttl_seconds (omega arith) h.enough in
      let unused : find quote_key q.id t ≡ none =
        ap (λ id. find quote_key id t) offered.same_id ∙ fresh in
      let (saved, found) = find_by_id-save p laws q (Offered-IsStorable now q offered) t unused in
      let t' = put quote_key (row_of p q) t in
      (
        q,
        t',
        rw (quote_of_command_lem now q created, saved) refl,
        offered,
        ap (λ id. find_by_id p id t') (sym offered.same_id) ∙ found,
      )
