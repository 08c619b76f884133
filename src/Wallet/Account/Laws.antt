-- ===== src/Wallet/Account/Laws.antt =====
-- What each method of wallet/domain/wallet-account.ts does to a valid account, in units.
use wallet_conversion_engine.Prelude.{
  ap, ◌∙◌, ℕ, ◌+◌, ◌-◌, ◌^◌, ◌≤◌, ◌<◌, ◌≡◌, refl, true, false, eq_iff, arith, le→leb, lt→leb,
  String,
}
use wallet_conversion_engine.Shared.Result.{
  ok, err, insufficient_available_balance, wallet_invariant_violation,
}
use wallet_conversion_engine.Shared.Decimal.{DecimalLib, IsDecimal}
use wallet_conversion_engine.Shared.Asset.{Asset, equals as same_asset}
use wallet_conversion_engine.Shared.Money
use wallet_conversion_engine.Shared.Money.{Money, IsMoney, units_of}
use wallet_conversion_engine.Shared.Money.Laws.{
  zero_of-IsMoney, add_lem, subtract_lem, is_greater_than_or_equal_lem, equals_lem,
}
use wallet_conversion_engine.Wallet.Account.{
  open_account, WalletAccount, assert_invariant, checked, assert_same_asset, reserve, release,
  commit_reservation, credit,
}

-- available + reserved = balance, in one asset, below the precision of the arithmetic.
pub record IsValid {D : Type 0} (lib : DecimalLib D) (w : WalletAccount D) : Type 0 where
  pub balance_money : IsMoney lib w.asset w.balance
  pub available_money : IsMoney lib w.asset w.available
  pub reserved_money : IsMoney lib w.asset w.reserved
  pub composed : units_of lib w.available + units_of lib w.reserved ≡ units_of lib w.balance
  pub bounded : units_of lib w.balance < 10 ^ 40

module _ {D : Type 0} (lib : DecimalLib D) (laws : IsDecimal lib) where
  code_matches :
      {asset : Asset} (m : Money D) → IsMoney lib asset m → same_asset m.asset asset ≡ true
  unfolding same_asset
  code_matches {asset} m h = ground (arith, eq_iff m.asset.code asset.code)

  -- The check at the end of every method passes on a valid account.
  pub checked-IsValid : (w : WalletAccount D) → IsValid lib w → checked lib w ≡ ok w
  unfolding checked assert_invariant
  checked-IsValid w v =
      let (sum, added, sum_money, sum_units) =
        add_lem lib laws w.available w.reserved v.available_money v.reserved_money
          (omega (arith, v.composed, v.bounded)) in
      let balanced : Money.equals lib sum w.balance ≡ true =
        equals_lem lib laws sum w.balance sum_money v.balance_money
        ∙ (ground (arith, v.composed, sum_units)) in
      rw
        (
          code_matches w.balance v.balance_money,
          code_matches w.available v.available_money,
          code_matches w.reserved v.reserved_money,
          added,
          balanced,
        )
        refl

  -- An account that is opened with nothing.
  pub open_account-zero_of :
      (id user_id : String) (asset : Asset)
      → asset.scale ≤ 18
      → open_account lib id user_id asset (Money.zero_of lib asset)
        ≡ ok (record {
          id = id;
          user_id = user_id;
          asset = asset;
          balance = Money.zero_of lib asset;
          available = Money.zero_of lib asset;
          reserved = Money.zero_of lib asset;
        })
  unfolding open_account Money.zero_of
  open_account-zero_of id user_id asset storable =
      let nothing : IsMoney lib asset (Money.zero_of lib asset) =
        zero_of-IsMoney lib laws {asset = asset} storable in
      let v : IsValid lib (record {
        id = id;
        user_id = user_id;
        asset = asset;
        balance = Money.zero_of lib asset;
        available = Money.zero_of lib asset;
        reserved = Money.zero_of lib asset;
      }) =
        record {
          balance_money = nothing;
          available_money = nothing;
          reserved_money = nothing;
          composed = omega (arith, laws.units-nought);
          bounded = omega (arith, laws.units-nought);
        } in
      rw (code_matches (Money.zero_of lib asset) nothing) (checked-IsValid _ v)

  pub assert_same :
      (w : WalletAccount D) (amount : Money D)
      → IsMoney lib w.asset amount
      → assert_same_asset lib w amount ≡ ok tt
  unfolding assert_same_asset same_asset
  assert_same w amount h = ground (arith, eq_iff amount.asset.code w.asset.code)

-- A valid account of the same identity, with the given units.
pub record Becomes {D : Type 0} (lib : DecimalLib D) (w : WalletAccount D)
    (balance available reserved : ℕ) (w' : WalletAccount D) : Type 0 where
  pub valid : IsValid lib w'
  pub same_id : w'.id ≡ w.id
  pub same_user_id : w'.user_id ≡ w.user_id
  pub same_asset : w'.asset ≡ w.asset
  pub balance_units : units_of lib w'.balance ≡ balance
  pub available_units : units_of lib w'.available ≡ available
  pub reserved_units : units_of lib w'.reserved ≡ reserved

module _ {D : Type 0} (lib : DecimalLib D) (laws : IsDecimal lib) (w : WalletAccount D)
    (amount : Money D) (v : IsValid lib w) (h : IsMoney lib w.asset amount) where
  -- A covered reservation moves the amount from available to reserved; the balance stays.
  pub reserve_lem :
      units_of lib amount ≤ units_of lib w.available
      → (w' : WalletAccount D) × (reserve lib w amount ≡ ok w')
        × Becomes lib w
            (units_of lib w.balance)
            (units_of lib w.available - units_of lib amount)
            (units_of lib w.reserved + units_of lib amount)
            w'
  unfolding reserve
  reserve_lem covered =
      let (a, ea, ha, ua) =
        subtract_lem lib laws w.available amount v.available_money h covered
          (omega (arith, v.composed, v.bounded)) in
      let (r, er, hr, ur) =
        add_lem lib laws w.reserved amount v.reserved_money h
          (omega (arith, v.composed, v.bounded)) in
      let w' : WalletAccount D = record w { available = a; reserved = r } in
      let v' : IsValid lib w' = record {
        balance_money = v.balance_money;
        available_money = ha;
        reserved_money = hr;
        composed = omega (arith, ua, ur, v.composed);
        bounded = v.bounded;
      } in
      (
        w',
        rw
            (
              assert_same lib laws w amount h,
              is_greater_than_or_equal_lem lib laws w.available amount v.available_money h,
              le→leb _ _ covered,
              ea,
              er,
              checked-IsValid lib laws w' v',
            )
            refl,
        record {
          valid = v';
          same_id = refl;
          same_user_id = refl;
          same_asset = refl;
          balance_units = refl;
          available_units = ua;
          reserved_units = ur;
        },
      )

  -- A reservation of more than is available is refused.
  pub reserve_insufficient :
      units_of lib w.available < units_of lib amount
      → reserve lib w amount ≡ err insufficient_available_balance
  unfolding reserve
  reserve_insufficient short =
      rw
        (
          assert_same lib laws w amount h,
          is_greater_than_or_equal_lem lib laws w.available amount v.available_money h,
          lt→leb _ _ short,
        )
        refl

  -- A release moves the amount from reserved back to available; the balance stays.
  pub release_lem :
      units_of lib amount ≤ units_of lib w.reserved
      → (w' : WalletAccount D) × (release lib w amount ≡ ok w')
        × Becomes lib w
            (units_of lib w.balance)
            (units_of lib w.available + units_of lib amount)
            (units_of lib w.reserved - units_of lib amount)
            w'
  unfolding release
  release_lem covered =
      let (r, er, hr, ur) =
        subtract_lem lib laws w.reserved amount v.reserved_money h covered
          (omega (arith, v.composed, v.bounded)) in
      let (a, ea, ha, ua) =
        add_lem lib laws w.available amount v.available_money h
          (omega (arith, v.composed, v.bounded)) in
      let w' : WalletAccount D = record w { reserved = r; available = a } in
      let v' : IsValid lib w' = record {
        balance_money = v.balance_money;
        available_money = ha;
        reserved_money = hr;
        composed = omega (arith, ua, ur, v.composed);
        bounded = v.bounded;
      } in
      (
        w',
        rw
            (
              assert_same lib laws w amount h,
              is_greater_than_or_equal_lem lib laws w.reserved amount v.reserved_money h,
              le→leb _ _ covered,
              er,
              ea,
              checked-IsValid lib laws w' v',
            )
            refl,
        record {
          valid = v';
          same_id = refl;
          same_user_id = refl;
          same_asset = refl;
          balance_units = refl;
          available_units = ua;
          reserved_units = ur;
        },
      )

  -- A commit takes the amount out of reserved and out of the balance; available stays.
  pub commit_reservation_lem :
      units_of lib amount ≤ units_of lib w.reserved
      → (w' : WalletAccount D) × (commit_reservation lib w amount ≡ ok w')
        × Becomes lib w
            (units_of lib w.balance - units_of lib amount)
            (units_of lib w.available)
            (units_of lib w.reserved - units_of lib amount)
            w'
  unfolding commit_reservation
  commit_reservation_lem covered =
      let (r, er, hr, ur) =
        subtract_lem lib laws w.reserved amount v.reserved_money h covered
          (omega (arith, v.composed, v.bounded)) in
      let (b, eb, hb, ub) =
        subtract_lem lib laws w.balance amount v.balance_money h (omega (arith, v.composed))
          v.bounded in
      let w' : WalletAccount D = record w { reserved = r; balance = b } in
      let v' : IsValid lib w' = record {
        balance_money = hb;
        available_money = v.available_money;
        reserved_money = hr;
        composed = omega (arith, ub, ur, v.composed);
        bounded = omega (arith, ub, v.bounded);
      } in
      (
        w',
        rw
            (
              assert_same lib laws w amount h,
              is_greater_than_or_equal_lem lib laws w.reserved amount v.reserved_money h,
              le→leb _ _ covered,
              er,
              eb,
              checked-IsValid lib laws w' v',
            )
            refl,
        record {
          valid = v';
          same_id = refl;
          same_user_id = refl;
          same_asset = refl;
          balance_units = ub;
          available_units = refl;
          reserved_units = ur;
        },
      )

  -- A release or a commit of more than is reserved is refused.
  pub overdrawn_refused :
      units_of lib w.reserved < units_of lib amount
      → (release lib w amount ≡ err wallet_invariant_violation)
        × (commit_reservation lib w amount ≡ err wallet_invariant_violation)
  unfolding release commit_reservation
  overdrawn_refused short =
      let covered : Money.is_greater_than_or_equal lib w.reserved amount ≡ ok false =
        is_greater_than_or_equal_lem lib laws w.reserved amount v.reserved_money h
        ∙ ap ok (lt→leb _ _ short) in
      (
        rw (assert_same lib laws w amount h, covered) refl,
        rw (assert_same lib laws w amount h, covered) refl,
      )

  -- A credit raises balance and available by the amount; reserved stays.
  pub credit_lem :
      units_of lib w.balance + units_of lib amount < 10 ^ 40
      → (w' : WalletAccount D) × (credit lib w amount ≡ ok w')
        × Becomes lib w
            (units_of lib w.balance + units_of lib amount)
            (units_of lib w.available + units_of lib amount)
            (units_of lib w.reserved)
            w'
  unfolding credit
  credit_lem bound =
      let (b, eb, hb, ub) = add_lem lib laws w.balance amount v.balance_money h bound in
      let (a, ea, ha, ua) =
        add_lem lib laws w.available amount v.available_money h (omega (arith, v.composed)) in
      let w' : WalletAccount D = record w { balance = b; available = a } in
      let v' : IsValid lib w' = record {
        balance_money = hb;
        available_money = ha;
        reserved_money = v.reserved_money;
        composed = omega (arith, ub, ua, v.composed);
        bounded = omega (arith, ub);
      } in
      (
        w',
        rw (assert_same lib laws w amount h, eb, ea, checked-IsValid lib laws w' v') refl,
        record {
          valid = v';
          same_id = refl;
          same_user_id = refl;
          same_asset = refl;
          balance_units = ub;
          available_units = ua;
          reserved_units = refl;
        },
      )
